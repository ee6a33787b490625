-- ===== src/Libraries/JsonTree.antt =====
-- external/json, `nlohmann::json`, as the code that reads values inside values uses it.
use mx_sdk_cpp.Common.{
  ℕ, map, ◌<◌, ◌^◌, ◌≡◌, Bool, true, false, Option, none, some, List, [], ◌∷◌, Bytes, bytes_eq,
  if◌then◌else◌, Result, ok,
}

-- `at` is `json[key]`, `as_text` and the like the conversion of a value, `equals_text` the comparison
-- with a text, and `items` what a loop over `json.items()` meets.
pub record JsonTreeLib : Type 1 where
  pub Json : Type 0
  pub parse : Bytes → Result Json
  pub contains : Json → Bytes → Bool
  pub at : Json → Bytes → Result Json
  pub as_text : Json → Result Bytes
  pub as_u64 : Json → Result ℕ
  pub as_u32 : Json → Result ℕ
  pub equals_text : Json → Bytes → Bool
  pub items : Json → List (Bytes × Json)

-- What a value stands for. An object is its first entry and the others.
pub data Tree : Type 0 where
  number : ℕ → Tree
  text : Bytes → Tree
  no_entries : Tree
  entry : Bytes → Tree → Tree → Tree
  other : Tree

abbrev pub lookup : Tree → Bytes → Option Tree
lookup (entry k v rest) i = let later = lookup rest i in if bytes_eq k i then some v else later
lookup _ i = none

abbrev pub is_found : Option Tree → Bool
is_found none = false
is_found (some t) = true

abbrev pub is_text : Tree → Bytes → Bool
is_text (text s) t = bytes_eq s t
is_text _ t = false

abbrev pub entries : Tree → List (Bytes × Tree)
entries (entry k v rest) = (k, v) ∷ entries rest
entries _ = []

abbrev pub is_object : Tree → Bool
is_object no_entries = true
is_object (entry k v rest) = is_object rest
is_object _ = false

-- A key that an object has is found, and a text or a number is converted to what it stands for;
-- a loop over an object meets its entries in their order.
pub record JsonTreeLaws (l : JsonTreeLib) : Type 0 where
  pub view : l.Json → Tree
  pub contains_view : (j : l.Json) (k : Bytes) → l.contains j k ≡ is_found (lookup (view j) k)
  pub at_view :
      (j : l.Json) (k : Bytes) (t : Tree)
      → lookup (view j) k ≡ some t
      → (i : l.Json) × (l.at j k ≡ ok i) × (view i ≡ t)
  pub as_text_view : (j : l.Json) (s : Bytes) → view j ≡ text s → l.as_text j ≡ ok s
  pub as_u64_view : (j : l.Json) (n : ℕ) → view j ≡ number n → n < 2 ^ 64 → l.as_u64 j ≡ ok n
  pub as_u32_view : (j : l.Json) (n : ℕ) → view j ≡ number n → n < 2 ^ 32 → l.as_u32 j ≡ ok n
  pub equals_text_view : (j : l.Json) (s : Bytes) → l.equals_text j s ≡ is_text (view j) s
  pub items_view :
      (j : l.Json)
      → is_object (view j) ≡ true
      → map (λ item. (item.0, view item.1)) (l.items j) ≡ entries (view j)
