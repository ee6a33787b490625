-- ===== src/Transactions/Transaction.antt =====
-- src/transaction/transaction.cpp, include/transaction/transaction.h and src/utils/params.h. A
-- `shared_ptr` that may be null is an `Option`; nothing modelled here writes through one.
pub mod Serialize
pub mod Sign
pub mod Deserialize
pub mod Entries
pub mod SignVerify
pub mod Reads
pub mod Unread
pub mod RoundTrip
use mx_sdk_cpp.Common.{
  ℕ, Bool, true, false, not, ◌&&◌, Option, none, some, Bytes, codes, bytes_eq, ◌==◌,
}
use mx_sdk_cpp.BigUInt
use mx_sdk_cpp.BigUInt.{BigUInt, from_u64}
use mx_sdk_cpp.Account.Address
use mx_sdk_cpp.Account.Address.{Address}

pub record Transaction : Type 0 where
  pub nonce : ℕ
  pub value : BigUInt
  pub receiver_user_name : Option Bytes
  pub sender_user_name : Option Bytes
  pub receiver : Option Address
  pub sender : Option Address
  pub gas_price : ℕ
  pub gas_limit : ℕ
  pub chain_id : Bytes
  pub version : ℕ
  pub data_field : Option Bytes
  pub signature : Option Bytes
  pub options : Option ℕ

-- DEFAULT_GAS_LIMIT, DEFAULT_VERSION
abbrev pub default_gas_limit : ℕ
default_gas_limit = 0

abbrev pub default_version : ℕ
default_version = 1

-- Transaction()
unfoldable pub default_transaction : Transaction
default_transaction = record {
  nonce = 0;
  value = from_u64 0;
  receiver_user_name = none;
  sender_user_name = none;
  receiver = none;
  sender = none;
  gas_price = 0;
  gas_limit = default_gas_limit;
  chain_id = codes "1";
  version = default_version;
  data_field = none;
  signature = none;
  options = none;
}

-- The constructor with all fields, in the order of its parameters.
abbrev pub make_transaction :
    ℕ
    → BigUInt
    → Address
    → Address
    → Option Bytes
    → Option Bytes
    → ℕ
    → ℕ
    → Option Bytes
    → Option Bytes
    → Bytes
    → ℕ
    → Option ℕ
    → Transaction
make_transaction nonce value receiver sender receiver_name sender_name gas_price gas_limit payload
      signature chain_id version options =
    record {
      nonce = nonce;
      value = value;
      receiver_user_name = receiver_name;
      sender_user_name = sender_name;
      receiver = some receiver;
      sender = some sender;
      gas_price = gas_price;
      gas_limit = gas_limit;
      chain_id = chain_id;
      version = version;
      data_field = payload;
      signature = signature;
      options = options;
    }

-- pointersHaveSameValue
abbrev pub same_value {ℓ} : {A : Type ℓ} → (A → A → Bool) → Option A → Option A → Bool
same_value eq none none = true
same_value eq none (some b) = false
same_value eq (some a) none = false
same_value eq (some a) (some b) = eq a b

-- operator==
pub equal : Transaction → Transaction → Bool
equal t u =
    (t.nonce == u.nonce)
    && (BigUInt.equal t.value u.value
        && (same_value Address.equal t.sender u.sender
            && (same_value Address.equal t.receiver u.receiver
                && (same_value bytes_eq t.sender_user_name u.sender_user_name
                    && (same_value bytes_eq t.receiver_user_name u.receiver_user_name
                        && ((t.gas_price == u.gas_price)
                            && ((t.gas_limit == u.gas_limit)
                                && (same_value bytes_eq t.data_field u.data_field
                                    && (same_value bytes_eq t.signature u.signature
                                        && (bytes_eq t.chain_id u.chain_id
                                            && ((t.version == u.version)
                                                && same_value ◌==◌ t.options u.options)))))))))))

-- operator!=
pub differ : Transaction → Transaction → Bool
unfolding equal
differ t u = not (equal t u)
