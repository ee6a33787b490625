-- ===== src/Transactions/Builders/BuiltMulti.antt =====
-- What the transaction of a multi transfer holds.
use mx_sdk_cpp.Common.{
  ◌≡◌, refl, List, ◌∷◌, ◌++◌, some, none, Bytes, codes, length, All, IsByte, ok,
}
use mx_sdk_cpp.Utils.Hex.{string_to_hex}
use mx_sdk_cpp.Libraries.Integers.{IntegerLib, IntegerLaws}
use mx_sdk_cpp.Libraries.Bech32.{Bech32Lib}
use mx_sdk_cpp.BigUInt.{from_u64}
use mx_sdk_cpp.Account.Address.{from_bech32}
use mx_sdk_cpp.SmartContracts.Fields.{fields, call_fields}
use mx_sdk_cpp.Transactions.TokenPayment.{TokenPayment}
use mx_sdk_cpp.Transactions.Payload.MultiTransfer
use mx_sdk_cpp.Transactions.Payload.Decode.{Field, IsCall}
use mx_sdk_cpp.Transactions.Payload.DecodeMulti.{IsPayment, PaymentFields, fields-multi_transfer}
use mx_sdk_cpp.Transactions.Gas.{for_multi_esdt_nft_transfer}
use mx_sdk_cpp.Transactions.Transaction.{Transaction}
use mx_sdk_cpp.Transactions.Builders.{TokenBuilder, string_to_bytes_ptr, build_multi_esdt_nft}
use mx_sdk_cpp.Transactions.Builders.Built.{kept}

-- Given the laws of the class `integer`, for payments, a receiver's key and a call that come from
-- bytes, and a receiver whose text is accepted as the receiver, a transaction is built: it goes
-- from the sender to the sender with the value 0, asks for the gas that is estimated for the
-- length of its data and the number of payments, and the data cut at the separators is the name
-- `MultiESDTNFTTransfer`, the receiver's key, the number of payments, the identifier, nonce and
-- amount of each payment in order, and the fields of the call.
pub build_multi_esdt_nft-fields :
    (ints : IntegerLib) (laws : IntegerLaws ints) (bech32 : Bech32Lib)
    (b : TokenBuilder (List TokenPayment)) (hs : All IsPayment b.paid)
    → from_bech32 bech32 (b.tx_input).receiver.bech32_address ≡ ok (b.tx_input).receiver
    → All IsByte (b.tx_input).receiver.pk
    → IsCall b.contract_call
    → (t : Transaction) × (data_field : Bytes) × (count : Field (length b.paid)) × (fs : List Bytes)
      × (build_multi_esdt_nft ints bech32 b ≡ ok t)
      × (t.data_field ≡ some data_field)
      × (fields data_field
          ≡ codes "MultiESDTNFTTransfer" ∷ string_to_hex (b.tx_input).receiver.pk ∷ count.text ∷ fs
            ++ call_fields b.contract_call)
      × PaymentFields b.paid hs fs
      × (t.receiver ≡ some (b.tx_input).sender)
      × (t.sender ≡ some (b.tx_input).sender)
      × (t.value ≡ from_u64 0)
      × (t.gas_limit
          ≡ for_multi_esdt_nft_transfer
              (b.tx_input).gas_estimator
              (length data_field)
              (length b.paid))
unfolding build_multi_esdt_nft MultiTransfer.create MultiTransfer.set_payments
    MultiTransfer.set_destination MultiTransfer.with_contract_call
build_multi_esdt_nft-fields ints laws bech32 b hs read key is =
    let (text, count, fs, made, is_fields, are) =
      fields-multi_transfer ints laws bech32 b.paid hs (b.tx_input).receiver b.contract_call read
        key is in
    (
      record {
        nonce = (b.tx_input).nonce;
        value = from_u64 0;
        receiver_user_name = none;
        sender_user_name = none;
        receiver = some (b.tx_input).sender;
        sender = some (b.tx_input).sender;
        gas_price = (b.tx_input).gas_price;
        gas_limit =
            for_multi_esdt_nft_transfer (b.tx_input).gas_estimator (length text) (length b.paid);
        chain_id = (b.tx_input).chain_id;
        version = (b.base).version;
        data_field = string_to_bytes_ptr text;
        signature = none;
        options = (b.base).options;
      },
      text,
      count,
      fs,
      rw made,
      kept text _ _ _ is_fields,
      is_fields,
      are,
      refl,
      refl,
      refl,
      refl,
    )
