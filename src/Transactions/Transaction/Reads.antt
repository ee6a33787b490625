-- ===== src/Transactions/Transaction/Reads.antt =====
-- What `Transaction::deserialize` reads from an object that `Transaction::serialize` made.
use mx_sdk_cpp.Common.{
  ℕ, ◌<◌, ◌^◌, ◌≡◌, refl, Bool, true, false, List, Option, none, some, Bytes, All, IsByte, Result,
  ok, arith,
}
use mx_sdk_cpp.Utils.Base64
use mx_sdk_cpp.Utils.Base64.RoundTrip.{decode-encode}
use mx_sdk_cpp.Libraries.Integers.{IntegerLib}
use mx_sdk_cpp.Libraries.Bech32.{Bech32Lib}
use mx_sdk_cpp.Libraries.Json.{JsonLib}
use mx_sdk_cpp.Wrappers.OrderedJson
use mx_sdk_cpp.BigUInt.{from_string}
use mx_sdk_cpp.Account.Address.{Address, from_bech32}
use mx_sdk_cpp.Transactions.Transaction.{Transaction}
use mx_sdk_cpp.Transactions.Transaction.Serialize.{
  tx_nonce, tx_value, tx_receiver, tx_sender, tx_receiver_name, tx_sender_name, tx_gas_price,
  tx_gas_limit, tx_data, tx_chain_id, tx_version, tx_signature, tx_options,
}
use mx_sdk_cpp.Transactions.Transaction.Deserialize.{
  assign_if, check_keys, assign_required, assign_optional,
}
use mx_sdk_cpp.Transactions.Transaction.Entries.{
  number, text, Entry, as_text, as_number, encoded, lookup, Fits, entries, is_some, or_else-none,
}

-- The value of an optional member after it was read: a member that is not written keeps its value.
abbrev pub keep {ℓ} : {A : Type ℓ} → Option A → Option A → Option A
keep (some a) old = some a
keep none old = old

abbrev pub OptionalBytes : Option Bytes → Type 0
OptionalBytes none = Unit
OptionalBytes (some s) = All IsByte s

abbrev pub OptionalU32 : Option ℕ → Type 0
OptionalU32 none = Unit
OptionalU32 (some n) = n < 2 ^ 32

-- The numbers and the bytes of a transaction are those of their types in the source.
abbrev pub IsTyped : Transaction → Type 0
IsTyped t =
    (t.nonce < 2 ^ 64)
    × (t.gas_price < 2 ^ 64)
    × (t.gas_limit < 2 ^ 64)
    × (t.version < 2 ^ 64)
    × OptionalU32 t.options
    × OptionalBytes t.data_field
    × OptionalBytes t.receiver_user_name
    × OptionalBytes t.sender_user_name

-- `old`, with the optional members that `t` has.
abbrev pub read_optional : Transaction → Transaction → Transaction
read_optional old t = record old {
  receiver_user_name = keep t.receiver_user_name old.receiver_user_name;
  sender_user_name = keep t.sender_user_name old.sender_user_name;
  data_field = keep t.data_field old.data_field;
  signature = keep t.signature old.signature;
  options = keep t.options old.options;
}

abbrev is_present {ℓ} : {A : Type ℓ} → Option A → Bool
is_present none = false
is_present (some a) = true

Fits-text : (k : Bytes) (o : Option Bytes) → Fits (k, as_text o)
Fits-text k none = tt
Fits-text k (some s) = tt

Fits-options : (k : Bytes) (o : Option ℕ) → OptionalU32 o → Fits (k, as_number o)
Fits-options k none h = tt
Fits-options k (some n) h = omega arith

pub entries-Fits : (t : Transaction) (r s : Address) → IsTyped t → All Fits (entries t r s)
unfolding entries
entries-Fits t r s (hn, hp, hl, hv, ho, hd, hrn, hsn) = (
  Fits-options tx_options t.options ho,
  (
    hv,
    (
      tt,
      (
        Fits-text tx_signature t.signature,
        (
          Fits-text tx_data (encoded t.data_field),
          (
            hl,
            (
              hp,
              (
                Fits-text tx_sender_name (encoded t.sender_user_name),
                (
                  Fits-text tx_receiver_name (encoded t.receiver_user_name),
                  (tt, (tt, (tt, (hn, tt)))),
                ),
              ),
            ),
          ),
        ),
      ),
    ),
  ),
)

module _ (json : JsonLib) (j : json.Json) where
  -- A member that is read with `get` and written with `put`.
  module _ {A : Type 0} (get : Transaction → Option A) (put : Transaction → Option A → Transaction)
      (put-get : (u : Transaction) → put u (get u) ≡ u) where
    assign_if-keep :
        (k : Bytes) (at : json.Json → Bytes → Result A) (o : Option A) (u : Transaction)
        → ((a : A) → o ≡ some a → at j k ≡ ok a)
        → json.contains j k ≡ is_present o
        → assign_if json j k at (λ u a. put u (some a)) u ≡ (put u (keep o (get u)), ok tt)
    assign_if-keep k at none u found h = rw (h, put-get u)
    assign_if-keep k at (some a) u found h = rw (h, found a refl)

-- An object that reads as a list of entries.
module _ (json : JsonLib) (j : json.Json) (es : List Entry)
    (has : (k : Bytes) → json.contains j k ≡ is_some (lookup es k))
    (string_at : (k s : Bytes) → lookup es k ≡ some (text s) → json.get_string j k ≡ ok s)
    (u64_at : (k : Bytes) (n : ℕ) → lookup es k ≡ some (number n) → json.get_u64 j k ≡ ok n) where
  at_string-object :
      (k s : Bytes) → lookup es k ≡ some (text s) → OrderedJson.at_string json j k ≡ ok s
  unfolding OrderedJson.at_string
  at_string-object k s h = rw (string_at k s h)

  at_u64-object :
      (k : Bytes) (n : ℕ) → lookup es k ≡ some (number n) → OrderedJson.at_u64 json j k ≡ ok n
  unfolding OrderedJson.at_u64
  at_u64-object k n h = rw (u64_at k n h)

  at_bytes-object :
      (k s : Bytes)
      → All IsByte s
      → lookup es k ≡ some (text (Base64.encode s))
      → OrderedJson.at_bytes json j k ≡ ok s
  unfolding OrderedJson.at_bytes
  at_bytes-object k s bytes h = rw (string_at k (Base64.encode s) h, decode-encode s bytes)

-- An object that reads as the entries of a transaction.
module _ (json : JsonLib) (j : json.Json) (t : Transaction) (r s : Address)
    (has : (k : Bytes) → json.contains j k ≡ is_some (lookup (entries t r s) k))
    (string_at : (k v : Bytes)
      → lookup (entries t r s) k ≡ some (text v)
      → json.get_string j k ≡ ok v)
    (u64_at : (k : Bytes) (n : ℕ)
      → lookup (entries t r s) k ≡ some (number n)
      → json.get_u64 j k ≡ ok n) where
  pub check_keys-entries : check_keys json j ≡ ok tt
  unfolding check_keys entries
  check_keys-entries = rw (
    has tx_nonce,
    has tx_value,
    has tx_receiver,
    has tx_sender,
    has tx_gas_price,
    has tx_gas_limit,
    has tx_chain_id,
    has tx_version,
  )

  pub assign_required-entries :
      (ints : IntegerLib) (bech32 : Bech32Lib) (old : Transaction)
      → from_string ints t.value.value ≡ ok t.value
      → from_bech32 bech32 r.bech32_address ≡ ok r
      → from_bech32 bech32 s.bech32_address ≡ ok s
      → assign_required ints bech32 json j old ≡ (
        record t {
          receiver = some r;
          sender = some s;
          receiver_user_name = old.receiver_user_name;
          sender_user_name = old.sender_user_name;
          data_field = old.data_field;
          signature = old.signature;
          options = old.options;
        },
        ok tt,
      )
  unfolding assign_required entries OrderedJson.at_u64 OrderedJson.at_string
  assign_required-entries ints bech32 old hv hr hs = rw (
    u64_at tx_nonce t.nonce refl,
    string_at tx_value t.value.value refl,
    hv,
    string_at tx_receiver r.bech32_address refl,
    hr,
    string_at tx_sender s.bech32_address refl,
    hs,
    u64_at tx_gas_price t.gas_price refl,
    u64_at tx_gas_limit t.gas_limit refl,
    string_at tx_chain_id t.chain_id refl,
    u64_at tx_version t.version refl,
  )

  has_text :
      (k : Bytes) (o : Option Bytes)
      → lookup (entries t r s) k ≡ as_text o
      → json.contains j k ≡ is_present o
  has_text k none h = rw (has k, h)
  has_text k (some v) h = rw (has k, h)

  has_bytes :
      (k : Bytes) (o : Option Bytes)
      → lookup (entries t r s) k ≡ as_text (encoded o)
      → json.contains j k ≡ is_present o
  has_bytes k none h = rw (has k, h)
  has_bytes k (some v) h = rw (has k, h)

  has_number :
      (k : Bytes) (o : Option ℕ)
      → lookup (entries t r s) k ≡ as_number o
      → json.contains j k ≡ is_present o
  has_number k none h = rw (has k, h)
  has_number k (some v) h = rw (has k, h)

  at_text :
      (k : Bytes) (o : Option Bytes)
      → lookup (entries t r s) k ≡ as_text o
      → (v : Bytes) → o ≡ some v
      → OrderedJson.at_string json j k ≡ ok v
  at_text k o h v e = at_string-object json j (entries t r s) has string_at u64_at k v (rw e at h)

  at_encoded :
      (k : Bytes) (o : Option Bytes)
      → OptionalBytes o
      → lookup (entries t r s) k ≡ as_text (encoded o)
      → (v : Bytes) → o ≡ some v
      → OrderedJson.at_bytes json j k ≡ ok v
  at_encoded k o bytes h v e =
      at_bytes-object json j (entries t r s) has string_at u64_at k v (rw e at bytes) (rw e at h)

  pub assign_optional-entries :
      (ints : IntegerLib) (bech32 : Bech32Lib) (u : Transaction)
      → IsTyped t
      → ((n : ℕ) → t.options ≡ some n → OrderedJson.at_u32 json j tx_options ≡ ok n)
      → assign_optional ints bech32 json j u ≡ (read_optional u t, ok tt)
  unfolding assign_optional entries
  assign_optional-entries ints bech32 u (hn, hp, hl, hv, ho, hd, hrn, hsn) options_at =
      let u1 = record u { data_field = keep t.data_field u.data_field } in
      let u2 = record u1 { signature = keep t.signature u1.signature } in
      let u3 = record u2 { receiver_user_name = keep t.receiver_user_name u2.receiver_user_name } in
      let u4 = record u3 { sender_user_name = keep t.sender_user_name u3.sender_user_name } in
      rw (
        assign_if-keep json j (λ u. u.data_field) (λ u d. record u { data_field = d }) (λ u. refl)
            tx_data (OrderedJson.at_bytes json) t.data_field u
            (at_encoded tx_data t.data_field hd (or_else-none (as_text (encoded t.data_field))))
            (has_bytes tx_data t.data_field (or_else-none (as_text (encoded t.data_field)))),
        assign_if-keep json j (λ u. u.signature) (λ u d. record u { signature = d }) (λ u. refl)
            tx_signature (OrderedJson.at_string json) t.signature u1
            (at_text tx_signature t.signature (or_else-none (as_text t.signature)))
            (has_text tx_signature t.signature (or_else-none (as_text t.signature))),
        assign_if-keep json j (λ u. u.receiver_user_name)
            (λ u d. record u { receiver_user_name = d }) (λ u. refl) tx_receiver_name
            (OrderedJson.at_bytes json) t.receiver_user_name u2
            (at_encoded tx_receiver_name t.receiver_user_name hrn
              (or_else-none (as_text (encoded t.receiver_user_name))))
            (has_bytes tx_receiver_name t.receiver_user_name
              (or_else-none (as_text (encoded t.receiver_user_name)))),
        assign_if-keep json j (λ u. u.sender_user_name) (λ u d. record u { sender_user_name = d })
            (λ u. refl) tx_sender_name (OrderedJson.at_bytes json) t.sender_user_name u3
            (at_encoded tx_sender_name t.sender_user_name hsn
              (or_else-none (as_text (encoded t.sender_user_name))))
            (has_bytes tx_sender_name t.sender_user_name
              (or_else-none (as_text (encoded t.sender_user_name)))),
        assign_if-keep json j (λ u. u.options) (λ u d. record u { options = d }) (λ u. refl)
            tx_options (OrderedJson.at_u32 json) t.options u4 options_at
            (has_number tx_options t.options (or_else-none (as_number t.options))),
      )
