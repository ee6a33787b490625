-- ===== src/Transactions/Transaction/Entries.antt =====
-- The object that `Transaction::serialize` makes, as the list of what was set, the last first.
use mx_sdk_cpp.Common.{
  ℕ, ◌<◌, ◌^◌, ◌≡◌, refl, ap, ◌∙◌, Bool, Bool-cases, inl, inr, true, false, List, [], ◌∷◌, Option,
  none, some, Bytes, bytes_eq, if◌then◌else◌, All, ok, arith,
}
use mx_sdk_cpp.Utils.Base64
use mx_sdk_cpp.Libraries.Json.{JsonLib, JsonLaws}
use mx_sdk_cpp.Wrappers.OrderedJson
use mx_sdk_cpp.Account.Address.{Address}
use mx_sdk_cpp.Transactions.Transaction.{Transaction}
use mx_sdk_cpp.Transactions.Transaction.Serialize.{
  tx_nonce, tx_value, tx_receiver, tx_sender, tx_receiver_name, tx_sender_name, tx_gas_price,
  tx_gas_limit, tx_data, tx_chain_id, tx_version, tx_signature, tx_options, set_bytes_if,
  set_string_if, set_number_if, transaction_json,
}

pub data Value : Type 0 where
  number : ℕ → Value
  text : Bytes → Value

-- A key and the value that it was set to, if it was.
abbrev pub Entry : Type 0
Entry = Bytes × Option Value

abbrev pub as_text : Option Bytes → Option Value
as_text none = none
as_text (some s) = some (text s)

abbrev pub as_number : Option ℕ → Option Value
as_number none = none
as_number (some n) = some (number n)

abbrev pub encoded : Option Bytes → Option Bytes
encoded none = none
encoded (some s) = some (Base64.encode s)

abbrev pub or_else : Option Value → Option Value → Option Value
or_else none w = w
or_else (some v) w = some v

abbrev pub is_some : Option Value → Bool
is_some none = false
is_some (some v) = true

abbrev pub lookup : List Entry → Bytes → Option Value
lookup [] k = none
lookup ((i, v) ∷ es) k = let rest = lookup es k in if bytes_eq i k then or_else v rest else rest

-- A number that a uint64_t holds.
abbrev pub Fits : Entry → Type 0
Fits (k, none) = Unit
Fits (k, some (number n)) = n < 2 ^ 64
Fits (k, some (text s)) = Unit

unfoldable pub entries : Transaction → Address → Address → List Entry
entries t receiver sender =
    (tx_options, as_number t.options)
    ∷ (tx_version, some (number t.version))
    ∷ (tx_chain_id, some (text t.chain_id))
    ∷ (tx_signature, as_text t.signature)
    ∷ (tx_data, as_text (encoded t.data_field))
    ∷ (tx_gas_limit, some (number t.gas_limit))
    ∷ (tx_gas_price, some (number t.gas_price))
    ∷ (tx_sender_name, as_text (encoded t.sender_user_name))
    ∷ (tx_receiver_name, as_text (encoded t.receiver_user_name))
    ∷ (tx_sender, some (text sender.bech32_address))
    ∷ (tx_receiver, some (text receiver.bech32_address))
    ∷ (tx_value, some (text t.value.value))
    ∷ (tx_nonce, some (number t.nonce))
    ∷ []

pub or_else-none : (v : Option Value) → or_else v none ≡ v
or_else-none none = refl
or_else-none (some v) = refl

is_some-or_else :
    (v w : Option Value) → (if is_some v then true else is_some w) ≡ is_some (or_else v w)
is_some-or_else none w = refl
is_some-or_else (some v) w = refl

same_text : {s r : Bytes} → some (text s) ≡ some (text r) → s ≡ r
same_text h = cc

same_number : {m n : ℕ} → some (number m) ≡ some (number n) → m ≡ n
same_number h = cc

no_text {ℓ} : {A : Type ℓ} {n : ℕ} {s : Bytes} → some (number n) ≡ some (text s) → A
no_text h = cc

no_number {ℓ} : {A : Type ℓ} {n : ℕ} {s : Bytes} → some (text s) ≡ some (number n) → A
no_number h = cc

module _ (lib : JsonLib) where
  open lib use {Json}

  abbrev pub set_entry : Json → Bytes → Option Value → Json
  set_entry j k none = j
  set_entry j k (some (number n)) = lib.set_number j k n
  set_entry j k (some (text s)) = lib.set_string j k s

  abbrev pub object : List Entry → Json
  object [] = lib.null
  object ((k, v) ∷ es) = set_entry (object es) k v

  set_string_if_entry :
      (j : Json) (k : Bytes) (o : Option Bytes)
      → set_string_if lib j k o ≡ set_entry j k (as_text o)
  set_string_if_entry j k none = refl
  set_string_if_entry j k (some s) = refl

  set_bytes_if_entry :
      (j : Json) (k : Bytes) (o : Option Bytes)
      → set_bytes_if lib j k o ≡ set_entry j k (as_text (encoded o))
  unfolding OrderedJson.set_bytes
  set_bytes_if_entry j k none = refl
  set_bytes_if_entry j k (some s) = refl

  set_number_if_entry :
      (j : Json) (k : Bytes) (o : Option ℕ) → set_number_if lib j k o ≡ set_entry j k (as_number o)
  set_number_if_entry j k none = refl
  set_number_if_entry j k (some n) = refl

  pub transaction_json-eq-object :
      (t : Transaction) (receiver sender : Address)
      → transaction_json lib t receiver sender ≡ object (entries t receiver sender)
  unfolding transaction_json entries
  transaction_json-eq-object t receiver sender =
      simp (set_string_if_entry, set_bytes_if_entry, set_number_if_entry)

  module _ (laws : JsonLaws lib) where
    contains-set_entry :
        (j : Json) (k i : Bytes) (v : Option Value)
        → lib.contains (set_entry j k v) i ≡ (
            if bytes_eq k i
            then (if is_some v then true else lib.contains j i)
            else lib.contains j i)
    contains-set_entry j k i none = ground arith
    contains-set_entry j k i (some (number n)) = laws.contains-set_number j k i n
    contains-set_entry j k i (some (text s)) = laws.contains-set_string j k i s

    pub contains-object :
        (es : List Entry) (k : Bytes) → lib.contains (object es) k ≡ is_some (lookup es k)
    contains-object [] k = laws.contains-null k
    contains-object ((i, v) ∷ es) k =
        contains-set_entry (object es) i k v
        ∙ rw (contains-object es k) (elim (Bool-cases (bytes_eq i k)) [
          | inl e ↦ rw e (is_some-or_else v (lookup es k))
          | inr e ↦ rw e refl
        ])

    get_string-set_entry :
        (j : Json) (k i : Bytes) (v rest : Option Value) (s : Bytes)
        → (rest ≡ some (text s) → lib.get_string j i ≡ ok s)
        → (if bytes_eq k i then or_else v rest else rest) ≡ some (text s)
        → lib.get_string (set_entry j k v) i ≡ ok s
    get_string-set_entry j k i none rest s found h = ground (arith, found)
    get_string-set_entry j k i (some (number n)) rest s found h = elim (Bool-cases (bytes_eq k i)) [
      | inl e ↦ no_text (rw e at h)
      | inr e ↦ laws.get_string-set_number j k i n e ∙ found (rw e at h)
    ]
    get_string-set_entry j k i (some (text r)) rest s found h =
        laws.get_string-set_string j k i r ∙ elim (Bool-cases (bytes_eq k i)) [
          | inl e ↦ rw e (ap ok (same_text (rw e at h)))
          | inr e ↦ rw e (found (rw e at h))
        ]

    pub get_string-object :
        (es : List Entry) (k s : Bytes)
        → lookup es k ≡ some (text s)
        → lib.get_string (object es) k ≡ ok s
    get_string-object [] k s h = cc
    get_string-object ((i, v) ∷ es) k s h =
        get_string-set_entry (object es) i k v (lookup es k) s (get_string-object es k s) h

    get_u64-set_entry :
        (j : Json) (k i : Bytes) (v rest : Option Value) (n : ℕ)
        → Fits (k, v)
        → (rest ≡ some (number n) → lib.get_u64 j i ≡ ok n)
        → (if bytes_eq k i then or_else v rest else rest) ≡ some (number n)
        → lib.get_u64 (set_entry j k v) i ≡ ok n
    get_u64-set_entry j k i none rest n fits found h = ground (arith, found)
    get_u64-set_entry j k i (some (number m)) rest n fits found h =
        laws.get_u64-set_number j k i m fits ∙ elim (Bool-cases (bytes_eq k i)) [
          | inl e ↦ rw e (ap ok (same_number (rw e at h)))
          | inr e ↦ rw e (found (rw e at h))
        ]
    get_u64-set_entry j k i (some (text r)) rest n fits found h = elim (Bool-cases (bytes_eq k i)) [
      | inl e ↦ no_number (rw e at h)
      | inr e ↦ laws.get_u64-set_string j k i r e ∙ found (rw e at h)
    ]

    pub get_u64-object :
        (es : List Entry) (k : Bytes) (n : ℕ)
        → All Fits es
        → lookup es k ≡ some (number n)
        → lib.get_u64 (object es) k ≡ ok n
    get_u64-object [] k n fits h = cc
    get_u64-object ((i, v) ∷ es) k n fits h =
        get_u64-set_entry (object es) i k v (lookup es k) n fits.0 (get_u64-object es k n fits.1) h
