-- ===== src/Transactions/Transaction/Unread.antt =====
-- `Transaction::deserialize` on texts that it refuses before it assigns anything.
use mx_sdk_cpp.Common.{
  ◌≡◌, ◌⊎◌, inl, inr, refl, Bool, List, [], ◌∷◌, Bytes, codes, Option, none, some, if◌then◌else◌,
  Error, err, ok, invalid_argument, arith,
}
use mx_sdk_cpp.Libraries.Integers.{IntegerLib}
use mx_sdk_cpp.Libraries.Bech32.{Bech32Lib}
use mx_sdk_cpp.Libraries.Json.{JsonLib}
use mx_sdk_cpp.Wrappers.OrderedJson
use mx_sdk_cpp.Transactions.Transaction.{Transaction}
use mx_sdk_cpp.Transactions.Transaction.Deserialize.{check_keys, assign_members, deserialize}

-- The keys that a transaction needs, and what is said where one is missing.
abbrev pub required : List (Bytes × Bytes)
required =
    (codes "nonce", codes "Invalid nonce.")
    ∷ (codes "value", codes "Invalid value: ")
    ∷ (codes "receiver", codes "Invalid receiver.")
    ∷ (codes "sender", codes "Invalid sender.")
    ∷ (codes "gasPrice", codes "Invalid gas price.")
    ∷ (codes "gasLimit", codes "Invalid gas limit.")
    ∷ (codes "chainID", codes "Invalid chain id.")
    ∷ (codes "version", codes "Invalid version.")
    ∷ []

-- What is said of the first key that is missing.
abbrev pub first_missing : (Bytes → Bool) → List (Bytes × Bytes) → Option Bytes
first_missing has [] = none
first_missing has ((key, message) ∷ keys) =
    let later = first_missing has keys in if has key then later else some message

-- A text that is no JSON, or that lacks a key that a transaction needs.
abbrev pub Refused : JsonLib → Bytes → Error → Type 0
Refused json text e =
    (OrderedJson.deserialize json text ≡ err e)
    ⊎ ((j : json.Json) × (message : Bytes) × (OrderedJson.deserialize json text ≡ ok j)
        × (first_missing (json.contains j) required ≡ some message)
        × (invalid_argument message ≡ e))

check_keys-first_missing :
    (json : JsonLib) (j : json.Json) (message : Bytes)
    → first_missing (json.contains j) required ≡ some message
    → check_keys json j ≡ err (invalid_argument message)
unfolding check_keys
check_keys-first_missing json j message h = ground arith

-- Where the text cannot be parsed, `deserialize` fails with the error of the parsing, and where
-- one of the eight required keys is missing, with the message of the first that is; both times it
-- leaves the transaction as it was.
pub deserialize_unchanged :
    (ints : IntegerLib) (bech32 : Bech32Lib) (json : JsonLib) (text : Bytes) (t : Transaction)
    (e : Error)
    → Refused json text e
    → deserialize ints bech32 json text t ≡ (t, err e)
unfolding deserialize assign_members
deserialize_unchanged ints bech32 json text t e (inl bad) = rw bad refl
deserialize_unchanged ints bech32 json text t e (inr (j, message, parsed, missing, same)) =
    rw (parsed, check_keys-first_missing json j message missing, same) refl
