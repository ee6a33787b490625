-- ===== src/Tests/Trees.antt =====
-- A concrete function in place of the part of the JSON library that reads values inside values: a value
-- is what it stands for. A text is parsed as what `parsed` pairs with it.
use mx_sdk_cpp.Common.{
  ℕ, ◌≡◌, refl, ap, map, List, [], ◌∷◌, Bytes, Option, none, some, bytes_eq, if◌then◌else◌, Result,
  ok, err, library,
}
use mx_sdk_cpp.Libraries.JsonTree.{
  JsonTreeLib, JsonTreeLaws, Tree, number, text, no_entries, entry, lookup, is_found, is_text,
  entries,
}

abbrev missing : {A : Type 0} → Result A
missing = err (library [])

abbrev value_of : Option Tree → Result Tree
value_of none = missing
value_of (some t) = ok t

abbrev text_of : Tree → Result Bytes
text_of (text s) = ok s
text_of _ = missing

abbrev number_of : Tree → Result ℕ
number_of (number n) = ok n
number_of _ = missing

abbrev find_text : List (Bytes × Tree) → Bytes → Result Tree
find_text [] s = missing
find_text ((t, v) ∷ texts) s = let later = find_text texts s in if bytes_eq t s then ok v else later

abbrev pub object : List (Bytes × Tree) → Tree
object [] = no_entries
object ((k, v) ∷ es) = entry k v (object es)

abbrev pub json_tree : List (Bytes × Tree) → JsonTreeLib
json_tree parsed = record {
  Json = Tree;
  parse = find_text parsed;
  contains = λ t k. is_found (lookup t k);
  at = λ t k. value_of (lookup t k);
  as_text = text_of;
  as_u64 = number_of;
  as_u32 = number_of;
  equals_text = is_text;
  items = entries;
}

pub same_items : (es : List (Bytes × Tree)) → map (λ item. (item.0, item.1)) es ≡ es
same_items [] = refl
same_items ((k, v) ∷ es) = ap (◌∷◌ (k, v)) (same_items es)

unfoldable pub json_tree_laws : (parsed : List (Bytes × Tree)) → JsonTreeLaws (json_tree parsed)
json_tree_laws parsed = record {
  view = λ t. t;
  contains_view = λ j k. refl;
  at_view = λ j k t h. (t, rw h, refl);
  as_text_view = λ j s h. rw h;
  as_u64_view = λ j n h small. rw h;
  as_u32_view = λ j n h small. rw h;
  equals_text_view = λ j s. refl;
  items_view = λ j h. same_items (entries j);
}
