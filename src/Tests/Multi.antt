-- ===== src/Tests/Multi.antt =====
-- The transaction of a multi transfer, and a text that is no transaction, at concrete inputs.
use mx_sdk_cpp.Common.{
  ◌≡◌, refl, List, [], ◌∷◌, ◌++◌, some, Bytes, codes, length, inr, ok, err, invalid_argument,
}
use mx_sdk_cpp.Utils.Hex.{string_to_hex}
use mx_sdk_cpp.BigUInt.{from_u64}
use mx_sdk_cpp.SmartContracts.Fields.{fields, call_fields}
use mx_sdk_cpp.Transactions.TokenPayment.{TokenPayment}
use mx_sdk_cpp.Transactions.Payload.Decode.{Field}
use mx_sdk_cpp.Transactions.Payload.DecodeMulti.{PaymentFields}
use mx_sdk_cpp.Transactions.Gas.{for_multi_esdt_nft_transfer}
use mx_sdk_cpp.Transactions.Transaction.{Transaction, default_transaction}
use mx_sdk_cpp.Transactions.Transaction.Deserialize.{deserialize}
use mx_sdk_cpp.Transactions.Transaction.Unread.{Refused, deserialize_unchanged}
use mx_sdk_cpp.Wrappers.OrderedJson
use mx_sdk_cpp.Transactions.Builders.{TokenBuilder, default_builder, build_multi_esdt_nft}
use mx_sdk_cpp.Transactions.Builders.BuiltMulti.{build_multi_esdt_nft-fields}
use mx_sdk_cpp.Tests.Integers.{integers, integer_laws}
use mx_sdk_cpp.Tests.Objects.{bech32, json}
use mx_sdk_cpp.Tests.Texts.{key-IsByte}
use mx_sdk_cpp.Tests.Payloads.{
  alice, alice-from_bech32, some_call, some_call-IsCall, some_input, two_payments,
  two_payments-IsPayment,
}

abbrev multi_builder : TokenBuilder (List TokenPayment)
multi_builder = record {
  base = default_builder;
  contract_call = some_call;
  tx_input = some_input;
  paid = two_payments;
}

build_multi_esdt_nft-fields_example :
    (t : Transaction) × (data_field : Bytes) × (count : Field (length two_payments)) × (fs : List
      Bytes)
    × (build_multi_esdt_nft integers bech32 multi_builder ≡ ok t)
    × (t.data_field ≡ some data_field)
    × (fields data_field
        ≡ codes "MultiESDTNFTTransfer" ∷ string_to_hex alice.pk ∷ count.text ∷ fs
          ++ call_fields some_call)
    × PaymentFields two_payments two_payments-IsPayment fs
    × (t.receiver ≡ some alice)
    × (t.sender ≡ some alice)
    × (t.value ≡ from_u64 0)
    × (t.gas_limit
        ≡ for_multi_esdt_nft_transfer some_input.gas_estimator
            (length data_field)
            (length two_payments))
build_multi_esdt_nft-fields_example =
    build_multi_esdt_nft-fields integers integer_laws bech32 multi_builder two_payments-IsPayment
      alice-from_bech32 key-IsByte some_call-IsCall

-- The empty text is read as an object with no key.
empty_text : Refused json [] (invalid_argument (codes "Invalid nonce."))
unfolding OrderedJson.deserialize
empty_text = inr (_, _, refl, refl, refl)

deserialize_unchanged_example :
    deserialize integers bech32 json [] default_transaction
    ≡ (default_transaction, err (invalid_argument (codes "Invalid nonce.")))
deserialize_unchanged_example =
    deserialize_unchanged integers bech32 json [] default_transaction
      (invalid_argument (codes "Invalid nonce.")) empty_text
