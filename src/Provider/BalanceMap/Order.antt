-- ===== src/Provider/BalanceMap/Order.antt =====
-- The order of the keys of a `std::map` from strings, and the invariant of the map.
use mx_sdk_cpp.Common.{
  ◌≡◌, ◌≢◌, inl, inr, refl, subst, Bool, true, false, [], ◌∷◌, Bytes, Option, none, some, All,
  bytes_eq, bytes_eq_iff, bytes_eq-neq, if◌then◌else◌, arith, Bool-cases,
}
use mx_sdk_cpp.BigUInt.{BigUInt}
use mx_sdk_cpp.Provider.BalanceMap.{Balances, precedes, emplace}

abbrev pub Precedes : Bytes → Bytes → Type 0
Precedes s t = precedes s t ≡ true

precedes_irrefl : (s : Bytes) → precedes s s ≡ false
unfolding precedes
precedes_irrefl [] = refl
precedes_irrefl (x ∷ s) = ground (arith, precedes_irrefl s)

pub Precedes-trans : (s t u : Bytes) → Precedes s t → Precedes t u → Precedes s u
unfolding precedes
Precedes-trans s t [] h k = absurd cc
Precedes-trans s [] (z ∷ u) h k = absurd cc
Precedes-trans [] (y ∷ t) (z ∷ u) h k = refl
Precedes-trans (x ∷ s) (y ∷ t) (z ∷ u) h k = let ih = Precedes-trans s t u in ground arith

pub precedes_total : (s t : Bytes) → precedes s t ≡ false → precedes t s ≡ false → s ≡ t
unfolding precedes
precedes_total [] [] h k = refl
precedes_total [] (y ∷ t) h k = absurd cc
precedes_total (x ∷ s) [] h k = absurd cc
precedes_total (x ∷ s) (y ∷ t) h k = let ih = precedes_total s t in grind arith

-- The keys increase, so that no key is there twice.
abbrev pub IsSorted : Balances → Type 0
IsSorted [] = Unit
IsSorted ((k, b) ∷ m) = All (λ e. Precedes k e.0) m × IsSorted m

abbrev pub lookup : Balances → Bytes → Option BigUInt
lookup [] i = none
lookup ((k, b) ∷ m) i = let later = lookup m i in if bytes_eq k i then some b else later

abbrev pub or_else : Option BigUInt → Option BigUInt → Option BigUInt
or_else none o = o
or_else (some b) o = some b

pub or_else-none : (o : Option BigUInt) → or_else o none ≡ o
or_else-none none = refl
or_else-none (some b) = refl

abbrev pub only : Bytes → BigUInt → Bytes → Option BigUInt
only k b i = if bytes_eq k i then some b else none

All_later :
    (j k : Bytes) (m : Balances)
    → Precedes j k
    → All (λ e. Precedes k e.0) m
    → All (λ e. Precedes j e.0) m
All_later j k [] h later = tt
All_later j k ((i, b) ∷ m) h (hi, later) = (Precedes-trans j k i h hi, All_later j k m h later)

not_itself : (k i : Bytes) → Precedes k i → i ≢ k
not_itself k i h e =
    let none = precedes_irrefl k in let itself : Precedes k k = subst (λ x. Precedes k x) e h in cc

not_there : (k : Bytes) (m : Balances) → All (λ e. Precedes k e.0) m → lookup m k ≡ none
not_there k [] h = refl
not_there k ((i, b) ∷ m) (hi, h) = rw (bytes_eq-neq i k (λ e. not_itself k i hi e), not_there k m h)

All-emplace :
    (j k : Bytes) (b : BigUInt) (m : Balances)
    → Precedes j k
    → All (λ e. Precedes j e.0) m
    → All (λ e. Precedes j e.0) (emplace k b m)
unfolding emplace
All-emplace j k b [] h later = (h, tt)
All-emplace j k b ((k', b') ∷ m) h (hk, later) = elim (Bool-cases (precedes k k')) [
  | inl before ↦ rw before (h, (hk, later))
  | inr not_before ↦ elim (Bool-cases (precedes k' k)) [
    | inl after ↦ rw (not_before, after) (hk, All-emplace j k b m h later)
    | inr same ↦ rw (not_before, same) (hk, later)
  ]
]

pub emplace-IsSorted :
    (k : Bytes) (b : BigUInt) (m : Balances) → IsSorted m → IsSorted (emplace k b m)
unfolding emplace
emplace-IsSorted k b [] h = (tt, tt)
emplace-IsSorted k b ((k', b') ∷ m) (later, h) = elim (Bool-cases (precedes k k')) [
  | inl before ↦ rw before ((before, All_later k k' m before later), (later, h))
  | inr not_before ↦ elim (Bool-cases (precedes k' k)) [
    | inl after ↦
        rw (not_before, after) (All-emplace k' k b m after later, emplace-IsSorted k b m h)
    | inr same ↦ rw (not_before, same) (later, h)
  ]
]

-- What a look-up meets: the new entry in front, an entry in front of the new one, and one in its place.
lookup_new :
    (c : Bool) (x : BigUInt) (o : Option BigUInt)
    → (c ≡ true → o ≡ none)
    → (if c then some x else o) ≡ or_else o (if c then some x else none)
lookup_new true x o h = rw (h refl)
lookup_new false x o h = rw (or_else-none o)

lookup_front :
    (c : Bool) (x : BigUInt) (o p : Option BigUInt)
    → (if c then some x else or_else o p) ≡ or_else (if c then some x else o) p
lookup_front true x o p = refl
lookup_front false x o p = refl

lookup_kept :
    (c : Bool) (x y : BigUInt) (o : Option BigUInt)
    → (if c then some x else o) ≡ or_else (if c then some x else o) (if c then some y else none)
lookup_kept true x y o = refl
lookup_kept false x y o = rw (or_else-none o)

pub lookup-emplace :
    (k : Bytes) (b : BigUInt) (m : Balances) (i : Bytes)
    → IsSorted m
    → lookup (emplace k b m) i ≡ or_else (lookup m i) (only k b i)
unfolding emplace
lookup-emplace k b [] i h = refl
lookup-emplace k b ((k', b') ∷ m) i (later, h) = elim (Bool-cases (precedes k k')) [
  | inl before ↦ rw before (
      lookup_new (bytes_eq k i) b (lookup ((k', b') ∷ m) i) (λ e.
        rw (← (bytes_eq_iff k i).0 e)
          (not_there k ((k', b') ∷ m) (before, All_later k k' m before later))))
  | inr not_before ↦ elim (Bool-cases (precedes k' k)) [
    | inl after ↦
        rw (not_before, after, lookup-emplace k b m i h)
          (lookup_front (bytes_eq k' i) b' (lookup m i) (only k b i))
    | inr same ↦
        rw (not_before, same, precedes_total k k' not_before same)
          (lookup_kept (bytes_eq k' i) b' b (lookup m i))
  ]
]
