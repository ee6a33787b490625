-- ===== src/Tests/Signed.antt =====
-- Signing and the text of a transaction at concrete inputs.
use mx_sdk_cpp.Common.{Bytes, ◌≡◌, refl, true, some, Bytes, codes, All, IsByte, ok, arith}
use mx_sdk_cpp.Common.Digits.{print}
use mx_sdk_cpp.Wrappers.Crypto
use mx_sdk_cpp.Wrappers.OrderedJson
use mx_sdk_cpp.BigUInt.{from_u64, from_string}
use mx_sdk_cpp.Transactions.Signer.{Signer, from_seed}
use mx_sdk_cpp.Transactions.Transaction.{Transaction, default_transaction}
use mx_sdk_cpp.Transactions.Transaction.Serialize.{serialize, transaction_json}
use mx_sdk_cpp.Transactions.Transaction.Deserialize.{deserialize}
use mx_sdk_cpp.Transactions.Transaction.Reads.{IsTyped}
use mx_sdk_cpp.Transactions.Transaction.RoundTrip.{read_over, deserialize-serialize}
use mx_sdk_cpp.Transactions.Transaction.Sign.{serialized_tx_msg, sign, verify}
use mx_sdk_cpp.Transactions.Transaction.SignVerify.{verify-sign}
use mx_sdk_cpp.Transactions.Builders.{build_signed}
use mx_sdk_cpp.Common.Digits.{print}
use mx_sdk_cpp.Transactions.Builders.Built.{verify-build_signed}
use mx_sdk_cpp.Tests.Integers.{integers}
use mx_sdk_cpp.Tests.Objects.{bech32, crypto, crypto_laws, json, json_laws}
use mx_sdk_cpp.Tests.Texts.{key}
use mx_sdk_cpp.Tests.Payloads.{alice, alice-from_bech32}

abbrev some_signer : Signer
some_signer = record { sk = key }

alice_key : alice.pk ≡ Crypto.get_public_key crypto some_signer.sk
unfolding Crypto.get_public_key
alice_key = refl

made_signer : from_seed crypto key ≡ ok some_signer
unfolding from_seed Crypto.get_secret_key
made_signer = refl

abbrev some_transaction : Transaction
some_transaction = record default_transaction {
  nonce = 12;
  value = from_u64 1000;
  receiver = some alice;
  sender = some alice;
  gas_price = 1000000000;
  gas_limit = 50000;
  data_field = some (codes "hi");
  options = some 1;
  version = 2;
}

made : (text : Bytes) × (serialize json some_transaction ≡ ok text)
unfolding serialize OrderedJson.serialize transaction_json
made = (_, refl)

some_transaction-IsTyped : IsTyped some_transaction
unfolding default_transaction
some_transaction-IsTyped =
    (omega arith, omega arith, omega arith, omega arith, omega arith, hi-IsByte, tt, tt)
  where
    hi-IsByte : All IsByte (codes "hi")
    hi-IsByte = ground arith

some_value : from_string integers (from_u64 1000).value ≡ ok (from_u64 1000)
unfolding from_string from_u64 print
some_value = refl

-- It is read over a transaction with a name of the receiver, which stays.
abbrev named : Transaction
named = record default_transaction { receiver_user_name = some (codes "bob") }

deserialize-serialize_example :
    deserialize integers bech32 json made.0 named ≡ (read_over named some_transaction, ok tt)
deserialize-serialize_example =
    deserialize-serialize integers bech32 json json_laws named some_transaction alice alice made.0
      some_transaction-IsTyped some_value alice-from_bech32 alice-from_bech32 refl refl made.1

signed : (t : Transaction) × (sign json crypto some_transaction some_signer ≡ ok t)
unfolding sign serialized_tx_msg serialize OrderedJson.serialize transaction_json
signed = (_, refl)

verify-sign_example : verify json crypto signed.0 ≡ ok true
verify-sign_example =
    verify-sign json crypto crypto_laws some_transaction signed.0 key some_signer alice made_signer
      refl alice_key signed.1

built_signed : (t : Transaction) × (build_signed json crypto (ok some_transaction) key ≡ ok t)
unfolding build_signed from_seed sign serialized_tx_msg serialize OrderedJson.serialize
    transaction_json
built_signed = (_, refl)

alice_seed : alice.pk ≡ Crypto.get_public_key crypto (Crypto.get_secret_key crypto key)
unfolding Crypto.get_public_key Crypto.get_secret_key
alice_seed = refl

verify-build_signed_example : verify json crypto built_signed.0 ≡ ok true
verify-build_signed_example =
    verify-build_signed json crypto crypto_laws key some_transaction built_signed.0 alice refl
      alice_seed built_signed.1
