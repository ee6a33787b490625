-- ===== src/Transactions/Transaction/RoundTrip.antt =====
-- `Transaction::deserialize` reads what `Transaction::serialize` wrote.
use mx_sdk_cpp.Common.{
  ℕ, ◌≡◌, ap, not, Option, none, some, Bytes, bytes_eq_refl, ok, invalid_argument, guard, >>=-eq-ok,
}
use mx_sdk_cpp.Libraries.Integers.{IntegerLib}
use mx_sdk_cpp.Libraries.Bech32.{Bech32Lib}
use mx_sdk_cpp.Libraries.Json.{JsonLib, JsonLaws}
use mx_sdk_cpp.Wrappers.OrderedJson
use mx_sdk_cpp.BigUInt.{from_string}
use mx_sdk_cpp.Account.Address.{Address, from_bech32}
use mx_sdk_cpp.Transactions.Transaction.{Transaction}
use mx_sdk_cpp.Transactions.Transaction.Serialize.{serialize, transaction_json, tx_options}
use mx_sdk_cpp.Transactions.Transaction.Deserialize.{assign_members, deserialize}
use mx_sdk_cpp.Transactions.Transaction.Entries.{
  entries, object, transaction_json-eq-object, contains-object, get_string-object, get_u64-object,
  set_entry, as_number,
}
use mx_sdk_cpp.Transactions.Transaction.Reads.{
  IsTyped, OptionalU32, keep, entries-Fits, check_keys-entries, assign_required-entries,
  assign_optional-entries,
}

-- `t`, with the optional members of `old` where `t` has none.
abbrev pub read_over : Transaction → Transaction → Transaction
read_over old t = record t {
  receiver_user_name = keep t.receiver_user_name old.receiver_user_name;
  sender_user_name = keep t.sender_user_name old.sender_user_name;
  data_field = keep t.data_field old.data_field;
  signature = keep t.signature old.signature;
  options = keep t.options old.options;
}

inj : {m n : ℕ} → some m ≡ some n → m ≡ n
inj h = cc

module _ (json : JsonLib) (laws : JsonLaws json) where
  -- What was serialized is the text of the object.
  dump_serialized :
      (t : Transaction) (r s : Address) (text : Bytes)
      → t.receiver ≡ some r
      → t.sender ≡ some s
      → serialize json t ≡ ok text
      → json.dump (object json (entries t r s)) ≡ ok text
  unfolding serialize OrderedJson.serialize transaction_json
  dump_serialized t r s text hr hs h =
      let made = rw (hr, hs, transaction_json-eq-object json t r s) at h in
      (>>=-eq-ok
        (guard (not (json.is_empty (object json (entries t r s))))
          (invalid_argument OrderedJson.error_msg_json_serialize_empty))
        (λ u. json.dump (object json (entries t r s))) made).2

  u32_at :
      (j : json.Json) (k : Bytes) (o : Option ℕ) (n : ℕ)
      → OptionalU32 o
      → o ≡ some n
      → OrderedJson.at_u32 json (set_entry json j k (as_number o)) k ≡ ok n
  unfolding OrderedJson.at_u32
  u32_at j k none n small h = cc
  u32_at j k (some m) n small h =
      rw (laws.get_u32-set_number j k k m small, bytes_eq_refl k) (ap ok (inj h))

  options_at :
      (t : Transaction) (r s : Address)
      → IsTyped t
      → (n : ℕ) → t.options ≡ some n
      → OrderedJson.at_u32 json (object json (entries t r s)) tx_options ≡ ok n
  unfolding entries
  options_at t r s (hn, hp, hl, hv, ho, hd, hrn, hsn) n h = u32_at _ tx_options t.options n ho h

module _ (ints : IntegerLib) (bech32 : Bech32Lib) (json : JsonLib) (laws : JsonLaws json) where
  assign_members-object :
      (old t : Transaction) (r s : Address)
      → IsTyped t
      → from_string ints t.value.value ≡ ok t.value
      → from_bech32 bech32 r.bech32_address ≡ ok r
      → from_bech32 bech32 s.bech32_address ≡ ok s
      → t.receiver ≡ some r
      → t.sender ≡ some s
      → assign_members ints bech32 json (object json (entries t r s)) old ≡ (read_over old t, ok tt)
  unfolding assign_members
  assign_members-object old t r s typed hv hr hs er es =
      let j = object json (entries t r s) in
      let has = contains-object json laws (entries t r s) in
      let string_at = get_string-object json laws (entries t r s) in
      let u64_at = λ (k : Bytes) (n : ℕ).
        get_u64-object json laws (entries t r s) k n (entries-Fits t r s typed) in
      rw (
        check_keys-entries json j t r s has string_at u64_at,
        assign_required-entries json j t r s has string_at u64_at ints bech32 old hv hr hs,
        assign_optional-entries json j t r s has string_at u64_at ints bech32 _ typed
            (options_at json laws t r s typed),
        er,
        es,
      )

  -- Given the laws of the JSON library: where a transaction has a receiver and a sender, its
  -- numbers and bytes are in the range of their types, its value and both bech32 texts are
  -- accepted by the constructors as the same value and addresses, and `serialize` returns a text,
  -- then `deserialize` of that text over any transaction succeeds and gives the serialized
  -- transaction, except that an optional member that it lacks keeps the value of the transaction
  -- read over.
  pub deserialize-serialize :
      (old t : Transaction) (r s : Address) (text : Bytes)
      → IsTyped t
      → from_string ints t.value.value ≡ ok t.value
      → from_bech32 bech32 r.bech32_address ≡ ok r
      → from_bech32 bech32 s.bech32_address ≡ ok s
      → t.receiver ≡ some r
      → t.sender ≡ some s
      → serialize json t ≡ ok text
      → deserialize ints bech32 json text old ≡ (read_over old t, ok tt)
  unfolding deserialize OrderedJson.deserialize
  deserialize-serialize old t r s text typed hv hr hs er es h =
      rw
        (laws.parse-dump (object json (entries t r s)) text
          (dump_serialized json laws t r s text er es h))
        (assign_members-object old t r s typed hv hr hs er es)
