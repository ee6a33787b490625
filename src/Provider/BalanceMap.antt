-- ===== src/Provider/BalanceMap.antt =====
-- The map that `ProxyProvider::getAllESDTBalances` fills, a `std::map` from token names, and its loop.
pub mod Order
pub mod Fill
pub mod Listed
use mx_sdk_cpp.Common.{
  ℕ, ◌<◌, ◌≡◌, ◌≢◌, refl, Bool, true, false, not, List, [], ◌∷◌, Bytes, codes, Option, none, some,
  bytes_eq, ltb, ◌==◌, if◌then◌else◌, Result, ok, err, ◌>>=◌, ◌>>◌, arith,
}
use mx_sdk_cpp.Libraries.Integers.{IntegerLib}
use mx_sdk_cpp.Libraries.JsonTree.{JsonTreeLib}
use mx_sdk_cpp.Wrappers.JsonPaths.{text_at}
use mx_sdk_cpp.BigUInt.{BigUInt, from_string}
use mx_sdk_cpp.Provider.Response.{require_attribute}

-- The entries in the order of the keys.
abbrev pub Balances : Type 0
Balances = List (Bytes × BigUInt)

-- `<` of two strings
unfoldable pub precedes : Bytes → Bytes → Bool
precedes s [] = false
precedes [] (y ∷ t) = true
precedes (x ∷ s) (y ∷ t) = let rest = precedes s t in if x == y then rest else ltb x y

-- `map.emplace(key, value)`, which leaves a key that is there
unfoldable pub emplace : Bytes → BigUInt → Balances → Balances
emplace k b [] = (k, b) ∷ []
emplace k b ((k', b') ∷ m) =
    let rest = emplace k b m in
    if precedes k k'
    then (k, b) ∷ (k', b') ∷ m
    else if precedes k' k
    then (k', b') ∷ rest
    else (k', b') ∷ m

-- The loop over `esdts.items()`.
unfoldable pub read_balances :
    (json : JsonTreeLib) → IntegerLib → List (Bytes × json.Json) → Balances → Result Balances
read_balances json lib [] ret = ok ret
read_balances json lib ((key, value) ∷ items) ret = do
  require_attribute json value (codes "balance")
  balance ← text_at json value (codes "balance" ∷ [])
  amount ← from_string lib balance
  read_balances json lib items (emplace key amount ret)
