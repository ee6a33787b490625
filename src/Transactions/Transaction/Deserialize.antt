-- ===== src/Transactions/Transaction/Deserialize.antt =====
-- `Transaction::deserialize`. It assigns the members one after the other, so the transaction that an
-- exception leaves behind is returned beside the outcome.
use mx_sdk_cpp.Common.{
  Bool, true, false, some, Bytes, codes, Result, ok, err, invalid_argument, ◌>>=◌, ◌>>◌, guard,
  if◌then◌else◌,
}
use mx_sdk_cpp.Utils.Errors.{error_msg_value}
use mx_sdk_cpp.Libraries.Integers.{IntegerLib}
use mx_sdk_cpp.Libraries.Bech32.{Bech32Lib}
use mx_sdk_cpp.Libraries.Json.{JsonLib}
use mx_sdk_cpp.Wrappers.OrderedJson
use mx_sdk_cpp.BigUInt.{from_string}
use mx_sdk_cpp.Account.Address.{from_bech32}
use mx_sdk_cpp.Transactions.Transaction.{Transaction}
use mx_sdk_cpp.Transactions.Transaction.Serialize.{
  tx_nonce, tx_value, tx_receiver, tx_sender, tx_receiver_name, tx_sender_name, tx_gas_price,
  tx_gas_limit, tx_data, tx_chain_id, tx_version, tx_signature, tx_options, error_msg_receiver,
  error_msg_sender,
}

abbrev pub error_msg_nonce : Bytes
error_msg_nonce = codes "Invalid nonce."

abbrev pub error_msg_gas_price : Bytes
error_msg_gas_price = codes "Invalid gas price."

abbrev pub error_msg_gas_limit : Bytes
error_msg_gas_limit = codes "Invalid gas limit."

abbrev pub error_msg_chain_id : Bytes
error_msg_chain_id = codes "Invalid chain id."

abbrev pub error_msg_version : Bytes
error_msg_version = codes "Invalid version."

-- A method that changes the transaction: the transaction afterwards and the outcome.
abbrev pub Method : Type 0
Method = Transaction → Transaction × Result (Unit {0})

-- `member = value;`, where computing the value may throw.
abbrev pub assign {ℓ} : {A : Type ℓ} → Result A → (Transaction → A → Transaction) → Method
assign (ok a) set t = (set t a, ok tt)
assign (err e) set t = (t, err e)

-- `m; k;`
abbrev continue : Transaction × Result (Unit {0}) → Method → Transaction × Result (Unit {0})
continue (t, ok u) k = k t
continue (t, err e) k = (t, err e)

infixr 4 ◌then◌
abbrev pub ◌then◌ : Method → Method → Method
(m then k) t = continue (m t) k

-- `if (b) m;`
abbrev pub when : Bool → Method → Method
when true m = m
when false m = λ t. (t, ok tt)

module _ (json : JsonLib) where
  open json use {Json, contains}

  -- The keys that a transaction has to have.
  unfoldable pub check_keys : Json → Result (Unit {0})
  check_keys j =
      guard (contains j tx_nonce) (invalid_argument error_msg_nonce)
      >> guard (contains j tx_value) (invalid_argument error_msg_value)
      >> guard (contains j tx_receiver) (invalid_argument error_msg_receiver)
      >> guard (contains j tx_sender) (invalid_argument error_msg_sender)
      >> guard (contains j tx_gas_price) (invalid_argument error_msg_gas_price)
      >> guard (contains j tx_gas_limit) (invalid_argument error_msg_gas_limit)
      >> guard (contains j tx_chain_id) (invalid_argument error_msg_chain_id)
      >> guard (contains j tx_version) (invalid_argument error_msg_version)

  -- getJsonValueIfNotNull, with the `at` of the member's type
  abbrev pub assign_if {ℓ} :
      {A : Type ℓ}
      → Json
      → Bytes
      → (Json → Bytes → Result A)
      → (Transaction → A → Transaction)
      → Method
  assign_if j key at set = when (contains j key) (assign (at j key) set)

module _ (ints : IntegerLib) (bech32 : Bech32Lib) (json : JsonLib) where
  open json use {Json}

  -- The assignments of the required members.
  unfoldable pub assign_required : Json → Method
  assign_required j =
      assign (OrderedJson.at_u64 json j tx_nonce) (λ t n. record t { nonce = n })
      then assign (OrderedJson.at_string json j tx_value >>= from_string ints)
          (λ t v. record t { value = v })
      then assign (OrderedJson.at_string json j tx_receiver >>= from_bech32 bech32)
          (λ t a. record t { receiver = some a })
      then assign (OrderedJson.at_string json j tx_sender >>= from_bech32 bech32)
          (λ t a. record t { sender = some a })
      then assign (OrderedJson.at_u64 json j tx_gas_price) (λ t n. record t { gas_price = n })
      then assign (OrderedJson.at_u64 json j tx_gas_limit) (λ t n. record t { gas_limit = n })
      then assign (OrderedJson.at_string json j tx_chain_id) (λ t s. record t { chain_id = s })
      then assign (OrderedJson.at_u64 json j tx_version) (λ t n. record t { version = n })

  -- The assignments of the optional members.
  unfoldable pub assign_optional : Json → Method
  assign_optional j =
      assign_if json j tx_data (OrderedJson.at_bytes json) (λ t b. record t { data_field = some b })
      then assign_if json j tx_signature (OrderedJson.at_string json)
          (λ t s. record t { signature = some s })
      then assign_if json j tx_receiver_name (OrderedJson.at_bytes json)
          (λ t b. record t { receiver_user_name = some b })
      then assign_if json j tx_sender_name (OrderedJson.at_bytes json)
          (λ t b. record t { sender_user_name = some b })
      then assign_if json j tx_options (OrderedJson.at_u32 json)
          (λ t n. record t { options = some n })

  -- What follows the parsing of the text.
  unfoldable pub assign_members : Json → Method
  assign_members j =
      assign (check_keys json j) (λ t u. t) then assign_required j then assign_optional j

  -- The outcome of the parsing decides whether anything is assigned.
  abbrev after_parse : Result Json → Method
  after_parse (err e) t = (t, err e)
  after_parse (ok j) t = assign_members j t

  unfoldable pub deserialize : Bytes → Method
  unfolding assign_members
  deserialize serialized = after_parse (OrderedJson.deserialize json serialized)
