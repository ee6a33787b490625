-- ===== src/Provider/BalanceMap/Fill.antt =====
-- The map after the loop of `ProxyProvider::getAllESDTBalances`.
use mx_sdk_cpp.Common.{
  ◌≡◌, refl, ◌∙◌, sym, ap, Bool, true, false, List, [], ◌∷◌, Bytes, codes, Option, none, some,
  bytes_eq, if◌then◌else◌, ok, All, map,
}
use mx_sdk_cpp.Common.Digits.{IsDecimalDigit}
use mx_sdk_cpp.Libraries.Integers.{IntegerLib, IntegerLaws}
use mx_sdk_cpp.Libraries.JsonTree.{JsonTreeLib, JsonTreeLaws, Tree, text, lookup}
use mx_sdk_cpp.Wrappers.JsonPaths.{lookup_path, text_at-lookup_path}
use mx_sdk_cpp.BigUInt.{BigUInt}
use mx_sdk_cpp.BigUInt.Arithmetic.{from_string_digits}
use mx_sdk_cpp.Provider.Response.{require_attribute-found}
use mx_sdk_cpp.Provider.BalanceMap.{Balances, emplace, read_balances}
use mx_sdk_cpp.Provider.BalanceMap.Order.{IsSorted, or_else, only, emplace-IsSorted, lookup-emplace}
use mx_sdk_cpp.Provider.BalanceMap.Order

-- The first amount of a token in a list of tokens and amounts.
abbrev pub first : List (Bytes × Bytes) → Bytes → Option BigUInt
first [] i = none
first ((token, amount) ∷ es) i =
    let later = first es i in if bytes_eq token i then some (record { value = amount }) else later

or_else_assoc : (a b c : Option BigUInt) → or_else (or_else a b) c ≡ or_else a (or_else b c)
or_else_assoc none b c = refl
or_else_assoc (some a) b c = refl

only-first :
    (token amount : Bytes) (es : List (Bytes × Bytes)) (i : Bytes)
    → or_else (only token (record { value = amount }) i) (first es i)
      ≡ first ((token, amount) ∷ es) i
only-first token amount es i = chosen (bytes_eq token i)
  where
    chosen :
        (c : Bool)
        → or_else (if c then some (record { value = amount }) else none) (first es i)
          ≡ (if c then some (record { value = amount }) else first es i)
    chosen true = refl
    chosen false = refl

-- The entries are objects with the tokens' names and with decimal amounts.
abbrev pub Lists : List (Bytes × Tree) → List (Bytes × Bytes) → Type 0
Lists [] [] = Unit
Lists [] (e ∷ es) = ⊥
Lists (item ∷ items) [] = ⊥
Lists ((key, value) ∷ items) ((token, amount) ∷ es) =
    (key ≡ token)
    × ((lookup value (codes "balance") ≡ some (text amount))
        × (All IsDecimalDigit amount × Lists items es))

module _ (json : JsonTreeLib) (json_laws : JsonTreeLaws json) (lib : IntegerLib)
    (laws : IntegerLaws lib) where
  abbrev viewed : List (Bytes × json.Json) → List (Bytes × Tree)
  viewed = map (λ item. (item.0, json_laws.view item.1))

  pub read_balances-Lists :
      (items : List (Bytes × json.Json)) (es : List (Bytes × Bytes)) (ret : Balances)
      → Lists (viewed items) es
      → IsSorted ret
      → (out : Balances) × (read_balances json lib items ret ≡ ok out)
        × IsSorted out
        × ((i : Bytes) → Order.lookup out i ≡ or_else (Order.lookup ret i) (first es i))
  unfolding read_balances
  read_balances-Lists [] [] ret h sorted = (ret, refl, sorted, λ i. sym (Order.or_else-none _))
  read_balances-Lists [] (e ∷ es) ret h sorted = absurd h
  read_balances-Lists (item ∷ items) [] ret h sorted = absurd h
  read_balances-Lists ((key, value) ∷ items) ((token, amount) ∷ es) ret (same, (found, (digits, h)))
        sorted =
      let ret' = emplace key (record { value = amount }) ret in
      let (out, done, out_sorted, looked) =
        read_balances-Lists items es ret' h
          (emplace-IsSorted key (record { value = amount }) ret sorted) in
      (
        out,
        rw
            (
              require_attribute-found json json_laws value (codes "balance") (text amount) found,
              text_at-lookup_path json json_laws value (codes "balance" ∷ []) amount
                  (rw (found, lookup_path) refl),
              from_string_digits lib laws amount digits,
            )
            done,
        out_sorted,
        λ i.
            looked i
            ∙ ap (λ o. or_else o (first es i))
                (lookup-emplace key (record { value = amount }) ret i sorted)
            ∙ or_else_assoc (Order.lookup ret i) (only key (record { value = amount }) i)
                (first es i)
            ∙ ap (or_else (Order.lookup ret i)) (rw same (only-first token amount es i)),
      )
