-- ===== src/Libraries/Json.antt =====
-- external/json, `nlohmann::ordered_json`, as the wrapper of src/wrappers/jsonwrapper.h uses it.
use mx_sdk_cpp.Common.{
  ℕ, ◌^◌, ◌<◌, ◌≡◌, Bool, true, false, Bytes, bytes_eq, if◌then◌else◌, Result, ok,
}

-- `null` is the default value; `set_number` and `set_string` are `json[key] = value`, which throws
-- nothing on it or on an object; `get_u64`, `get_u32` and `get_string` are `json.at(key)` converted.
-- `dump` throws on a text that is no UTF-8.
pub record JsonLib : Type 1 where
  pub Json : Type 0
  pub null : Json
  pub is_empty : Json → Bool
  pub contains : Json → Bytes → Bool
  pub set_number : Json → Bytes → ℕ → Json
  pub set_string : Json → Bytes → Bytes → Json
  pub get_u64 : Json → Bytes → Result ℕ
  pub get_u32 : Json → Bytes → Result ℕ
  pub get_string : Json → Bytes → Result Bytes
  pub dump : Json → Result Bytes
  pub parse : Bytes → Result Json

-- An object keeps one value for each key, and what was written is parsed back.
pub record JsonLaws (l : JsonLib) : Type 0 where
  pub is_empty-set_number :
      (j : l.Json) (k : Bytes) (n : ℕ) → l.is_empty (l.set_number j k n) ≡ false
  pub is_empty-set_string : (j : l.Json) (k s : Bytes) → l.is_empty (l.set_string j k s) ≡ false
  pub contains-null : (k : Bytes) → l.contains l.null k ≡ false
  pub contains-set_number :
      (j : l.Json) (k i : Bytes) (n : ℕ)
      → l.contains (l.set_number j k n) i ≡ (if bytes_eq k i then true else l.contains j i)
  pub contains-set_string :
      (j : l.Json) (k i s : Bytes)
      → l.contains (l.set_string j k s) i ≡ (if bytes_eq k i then true else l.contains j i)
  pub get_u64-set_number :
      (j : l.Json) (k i : Bytes) (n : ℕ)
      → n < 2 ^ 64
      → l.get_u64 (l.set_number j k n) i ≡ (if bytes_eq k i then ok n else l.get_u64 j i)
  pub get_u32-set_number :
      (j : l.Json) (k i : Bytes) (n : ℕ)
      → n < 2 ^ 32
      → l.get_u32 (l.set_number j k n) i ≡ (if bytes_eq k i then ok n else l.get_u32 j i)
  pub get_string-set_string :
      (j : l.Json) (k i s : Bytes)
      → l.get_string (l.set_string j k s) i ≡ (if bytes_eq k i then ok s else l.get_string j i)
  pub get_u64-set_string :
      (j : l.Json) (k i s : Bytes)
      → bytes_eq k i ≡ false
      → l.get_u64 (l.set_string j k s) i ≡ l.get_u64 j i
  pub get_u32-set_string :
      (j : l.Json) (k i s : Bytes)
      → bytes_eq k i ≡ false
      → l.get_u32 (l.set_string j k s) i ≡ l.get_u32 j i
  pub get_string-set_number :
      (j : l.Json) (k i : Bytes) (n : ℕ)
      → bytes_eq k i ≡ false
      → l.get_string (l.set_number j k n) i ≡ l.get_string j i
  pub parse-dump : (j : l.Json) (s : Bytes) → l.dump j ≡ ok s → l.parse s ≡ ok j
