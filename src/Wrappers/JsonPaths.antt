-- ===== src/Wrappers/JsonPaths.antt =====
-- `json[k1][k2]…` and its conversions, as src/filehandler/keyfilereader.cpp and
-- src/provider/proxyprovider.cpp read them.
use mx_sdk_cpp.Common.{
  ℕ, ◌<◌, ◌^◌, ◌≡◌, refl, List, [], ◌∷◌, Bytes, Option, none, some, Result, ok, ◌>>=◌,
}
use mx_sdk_cpp.Libraries.JsonTree.{JsonTreeLib, JsonTreeLaws, Tree, number, text, lookup}

module _ (json : JsonTreeLib) where
  unfoldable pub at_path : json.Json → List Bytes → Result json.Json
  at_path j [] = ok j
  at_path j (k ∷ ks) = do value ← json.at j k; at_path value ks

  unfoldable pub text_at : json.Json → List Bytes → Result Bytes
  text_at j path = do value ← at_path j path; json.as_text value

  unfoldable pub number_at : json.Json → List Bytes → Result ℕ
  number_at j path = do value ← at_path j path; json.as_u32 value

  unfoldable pub number64_at : json.Json → List Bytes → Result ℕ
  number64_at j path = do value ← at_path j path; json.as_u64 value

-- The same path into what a value stands for.
abbrev pub lookup_path : Tree → List Bytes → Option Tree
lookup_path t [] = some t
lookup_path t (k ∷ ks) = elim (lookup t k) [ none ↦ none | some u ↦ lookup_path u ks ]

pub lookup_path-step :
    (t : Tree) (k : Bytes) (ks : List Bytes) (u : Tree)
    → lookup_path t (k ∷ ks) ≡ some u
    → (v : Tree) × (lookup t k ≡ some v) × (lookup_path v ks ≡ some u)
lookup_path-step t k ks u h = step (lookup t k) refl h
  where
    step :
        (o : Option Tree)
        → lookup t k ≡ o
        → elim o [ none ↦ none | some v ↦ lookup_path v ks ] ≡ some u
        → (v : Tree) × (lookup t k ≡ some v) × (lookup_path v ks ≡ some u)
    step none e h = absurd cc
    step (some v) e h = (v, e, h)

module _ (json : JsonTreeLib) (laws : JsonTreeLaws json) where
  pub at_path-lookup_path :
      (j : json.Json) (path : List Bytes) (t : Tree)
      → lookup_path (laws.view j) path ≡ some t
      → (i : json.Json) × (at_path json j path ≡ ok i) × (laws.view i ≡ t)
  unfolding at_path
  at_path-lookup_path j [] t h = (j, refl, cc)
  at_path-lookup_path j (k ∷ ks) t h =
      let (u, e, rest) = lookup_path-step (laws.view j) k ks t h in
      let (v, found, viewed) = laws.at_view j k u e in
      let (i, reached, same) = at_path-lookup_path v ks t (rw viewed rest) in
      (i, rw (found, reached), same)

  module _ (j : json.Json) (path : List Bytes) where
    pub text_at-lookup_path :
        (s : Bytes) → lookup_path (laws.view j) path ≡ some (text s) → text_at json j path ≡ ok s
    unfolding text_at
    text_at-lookup_path s h =
        let (i, reached, same) = at_path-lookup_path j path (text s) h in
        rw (reached, laws.as_text_view i s same)

    pub number64_at-lookup_path :
        (n : ℕ)
        → n < 2 ^ 64
        → lookup_path (laws.view j) path ≡ some (number n)
        → number64_at json j path ≡ ok n
    unfolding number64_at
    number64_at-lookup_path n small h =
        let (i, reached, same) = at_path-lookup_path j path (number n) h in
        rw (reached, laws.as_u64_view i n same small)

    pub number_at-lookup_path :
        (n : ℕ)
        → n < 2 ^ 32
        → lookup_path (laws.view j) path ≡ some (number n)
        → number_at json j path ≡ ok n
    unfolding number_at
    number_at-lookup_path n small h =
        let (i, reached, same) = at_path-lookup_path j path (number n) h in
        rw (reached, laws.as_u32_view i n same small)
