-- ===== src/Transactions/Transaction/Sign.antt =====
-- `Transaction::sign`, `Transaction::verify` and the message that they share.
use mx_sdk_cpp.Common.{
  ℕ, Bool, false, not, ◌&&◌, none, some, Bytes, codes, leb, ◌==◌, if◌then◌else◌, bit_and, Result,
  ok, runtime_error, ◌>>=◌,
}
use mx_sdk_cpp.Utils.Hex.{string_to_hex, hex_to_string}
use mx_sdk_cpp.Libraries.Json.{JsonLib}
use mx_sdk_cpp.Libraries.Crypto.{CryptoLib}
use mx_sdk_cpp.Wrappers.Crypto.{sha3_keccak}
use mx_sdk_cpp.Transactions.Signer.{Signer, get_signature, verify_address}
use mx_sdk_cpp.Transactions.Transaction.{Transaction}
use mx_sdk_cpp.Transactions.Transaction.Serialize.{serialize, required, error_msg_sender}

abbrev pub options_sign_tx_hash_mask : ℕ
options_sign_tx_hash_mask = 1

abbrev pub version_sign_tx_hash : ℕ
version_sign_tx_hash = 2

abbrev pub error_msg_signature : Bytes
error_msg_signature = codes "Missing signature."

-- shouldSignHash
unfoldable pub should_sign_hash : Transaction → Bool
should_sign_hash t = elim t.options [
  | none ↦ false
  | some options ↦
      leb version_sign_tx_hash t.version && not (bit_and options options_sign_tx_hash_mask == 0)
]

module _ (json : JsonLib) (crypto : CryptoLib) where
  -- getSerializedTxMsg, on a copy of the transaction
  unfoldable pub serialized_tx_msg : Transaction → Bool → Result Bytes
  serialized_tx_msg t with_signature = do
    let tx = if with_signature then t else record t { signature = none }
    tx_serialized ← serialize json tx
    ok (if should_sign_hash tx then sha3_keccak crypto tx_serialized else tx_serialized)

  unfoldable pub sign : Transaction → Signer → Result Transaction
  sign t signer = do
    tx_serialized ← serialized_tx_msg t false
    ok (record t { signature = some (string_to_hex (get_signature crypto signer tx_serialized)) })

  unfoldable pub verify : Transaction → Result Bool
  verify t = do
    signature ← required t.signature (runtime_error error_msg_signature)
    sender ← required t.sender (runtime_error error_msg_sender)
    tx_serialized ← serialized_tx_msg t false
    bytes ← hex_to_string signature
    ok (verify_address crypto bytes tx_serialized sender)
