-- ===== src/Provider/BalanceMap/Listed.antt =====
-- A list of tokens and amounts that has each token once.
use mx_sdk_cpp.Common.{
  ◌≡◌, ◌≢◌, ◌↔◌, ◌⊎◌, inl, inr, refl, ap, Bool-cases, List, [], ◌∷◌, Bytes, All, some, bytes_eq,
  bytes_eq_iff, bytes_eq_refl, bytes_eq-neq,
}
use mx_sdk_cpp.BigUInt.{BigUInt}
use mx_sdk_cpp.Provider.BalanceMap.Fill.{first}

-- The list has the token with this amount.
abbrev pub Has : List (Bytes × Bytes) → Bytes → Bytes → Type 0
Has [] t a = ⊥
Has ((token, amount) ∷ es) t a = ((token ≡ t) × (amount ≡ a)) ⊎ Has es t a

abbrev pub IsDistinct : List (Bytes × Bytes) → Type 0
IsDistinct [] = Unit
IsDistinct ((token, amount) ∷ es) = All (λ e. e.0 ≢ token) es × IsDistinct es

other_token :
    (es : List (Bytes × Bytes)) (token t a : Bytes)
    → All (λ e. e.0 ≢ token) es
    → Has es t a
    → token ≢ t
other_token [] token t a h has = absurd has
other_token ((k, v) ∷ es) token t a (h, hs) (inl (same, _)) = λ e. h (cc (same, e))
other_token (e ∷ es) token t a (h, hs) (inr later) = other_token es token t a hs later

same_amount : (x y : BigUInt) → some x ≡ some y → x.value ≡ y.value
same_amount x y h = let e : x ≡ y = cc in ap (λ (b : BigUInt). b.value) e

first→Has :
    (es : List (Bytes × Bytes)) (t a : Bytes)
    → first es t ≡ some (record { value = a })
    → Has es t a
first→Has [] t a h = absurd cc
first→Has ((token, amount) ∷ es) t a h = elim (Bool-cases (bytes_eq token t)) [
  | inl same ↦ inl (
    (bytes_eq_iff token t).0 same,
    same_amount (record { value = amount }) (record { value = a }) (rw same at h),
  )
  | inr other ↦ inr (first→Has es t a (rw other at h))
]

Has→first :
    (es : List (Bytes × Bytes)) (t a : Bytes)
    → IsDistinct es
    → Has es t a
    → first es t ≡ some (record { value = a })
Has→first [] t a h has = absurd has
Has→first ((token, amount) ∷ es) t a (once, distinct) (inl (same, is)) =
    rw (same, bytes_eq_refl t, is) refl
Has→first ((token, amount) ∷ es) t a (once, distinct) (inr later) =
    rw (bytes_eq-neq token t (other_token es token t a once later))
      (Has→first es t a distinct later)

pub first-Has :
    (es : List (Bytes × Bytes)) (t a : Bytes)
    → IsDistinct es
    → (first es t ≡ some (record { value = a })) ↔ Has es t a
first-Has es t a distinct = (first→Has es t a, Has→first es t a distinct)
