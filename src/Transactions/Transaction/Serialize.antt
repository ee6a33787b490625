-- ===== src/Transactions/Transaction/Serialize.antt =====
-- `Transaction::serialize`, and the key names of src/utils/params.h.
use mx_sdk_cpp.Common.{
  ℕ, Option, none, some, Bytes, codes, Result, Error, ok, err, invalid_argument, ◌>>=◌,
}
use mx_sdk_cpp.Libraries.Json.{JsonLib}
use mx_sdk_cpp.Wrappers.OrderedJson
use mx_sdk_cpp.Account.Address.{Address}
use mx_sdk_cpp.Transactions.Transaction.{Transaction}

abbrev pub tx_nonce : Bytes
tx_nonce = codes "nonce"

abbrev pub tx_value : Bytes
tx_value = codes "value"

abbrev pub tx_receiver : Bytes
tx_receiver = codes "receiver"

abbrev pub tx_sender : Bytes
tx_sender = codes "sender"

abbrev pub tx_receiver_name : Bytes
tx_receiver_name = codes "receiverUsername"

abbrev pub tx_sender_name : Bytes
tx_sender_name = codes "senderUsername"

abbrev pub tx_gas_price : Bytes
tx_gas_price = codes "gasPrice"

abbrev pub tx_gas_limit : Bytes
tx_gas_limit = codes "gasLimit"

abbrev pub tx_data : Bytes
tx_data = codes "data"

abbrev pub tx_chain_id : Bytes
tx_chain_id = codes "chainID"

abbrev pub tx_version : Bytes
tx_version = codes "version"

abbrev pub tx_signature : Bytes
tx_signature = codes "signature"

abbrev pub tx_options : Bytes
tx_options = codes "options"

abbrev pub error_msg_receiver : Bytes
error_msg_receiver = codes "Invalid receiver."

abbrev pub error_msg_sender : Bytes
error_msg_sender = codes "Invalid sender."

-- `if (p == nullptr) throw e;` and the object that `p` points to.
abbrev pub required {ℓ} : {A : Type ℓ} → Option A → Error → Result A
required none e = err e
required (some a) e = ok a

module _ (lib : JsonLib) where
  open lib use {Json}

  -- setJsonValueIfNotNull, for bytes, a string and a number
  abbrev pub set_bytes_if : Json → Bytes → Option Bytes → Json
  set_bytes_if j key none = j
  set_bytes_if j key (some v) = OrderedJson.set_bytes lib j key v

  abbrev pub set_string_if : Json → Bytes → Option Bytes → Json
  set_string_if j key none = j
  set_string_if j key (some v) = lib.set_string j key v

  abbrev pub set_number_if : Json → Bytes → Option ℕ → Json
  set_number_if j key none = j
  set_number_if j key (some v) = lib.set_number j key v

  -- The object, its keys in the order of the calls of `set`.
  unfoldable pub transaction_json : Transaction → Address → Address → Json
  transaction_json t receiver sender =
      let j0 = lib.set_number lib.null tx_nonce t.nonce in
      let j1 = lib.set_string j0 tx_value t.value.value in
      let j2 = lib.set_string j1 tx_receiver receiver.bech32_address in
      let j3 = lib.set_string j2 tx_sender sender.bech32_address in
      let j4 = set_bytes_if j3 tx_receiver_name t.receiver_user_name in
      let j5 = set_bytes_if j4 tx_sender_name t.sender_user_name in
      let j6 = lib.set_number j5 tx_gas_price t.gas_price in
      let j7 = lib.set_number j6 tx_gas_limit t.gas_limit in
      let j8 = set_bytes_if j7 tx_data t.data_field in
      let j9 = set_string_if j8 tx_signature t.signature in
      let j10 = lib.set_string j9 tx_chain_id t.chain_id in
      let j11 = lib.set_number j10 tx_version t.version in set_number_if j11 tx_options t.options

  unfoldable pub serialize : Transaction → Result Bytes
  serialize t = do
    receiver ← required t.receiver (invalid_argument error_msg_receiver)
    sender ← required t.sender (invalid_argument error_msg_sender)
    OrderedJson.serialize lib (transaction_json t receiver sender)
