-- ===== src/Transactions/TokenPayment/Amounts.antt =====
-- Which amounts are accepted, and the number of smallest units that they stand for.
use mx_sdk_cpp.Common.{
  ℕ, zero, suc, ◌+◌, ◌-◌, ◌*◌, ◌^◌, ◌≤◌, ◌<◌, ◌≡◌, ◌≢◌, refl, ap, ◌∙◌, inl, inr, true, false, [],
  ◌∷◌, ◌++◌, Bytes, codes, length, take, drop, All, All-append, ltb, if◌then◌else◌, bytes_eq,
  bytes_eq_iff, arith, Bool-cases, length-append, length-replicate,
}
use mx_sdk_cpp.Common.Digits.{IsDecimalDigit, number}
use mx_sdk_cpp.Common.Decimals.{zeros, number_from-append, number_from-zeros}
use mx_sdk_cpp.Transactions.TokenPayment.{
  point, has_leading_zeroes, remove_point, digits_to_end, is_valid_number, point_count, last_point,
  to_count, fit_fraction,
}

pub digits_to_end→All : (s : Bytes) → digits_to_end s ≡ true → All IsDecimalDigit s
unfolding digits_to_end
digits_to_end→All [] h = tt
digits_to_end→All (c ∷ s) h = (ground arith, digits_to_end→All s (ground arith))

pub All→digits_to_end : (s : Bytes) → All IsDecimalDigit s → digits_to_end s ≡ true
unfolding digits_to_end
All→digits_to_end [] h = refl
All→digits_to_end (c ∷ s) (hc, hs) = rw (hc, All→digits_to_end s hs)

-- A text of digits has no point, and nothing to remove.
pub no_point : (s : Bytes) → All IsDecimalDigit s → (point_count s ≡ 0) × (remove_point s ≡ s)
unfolding point_count remove_point
no_point [] h = (refl, refl)
no_point (c ∷ s) (hc, hs) = let (e, f) = no_point s hs in (ground arith, ground arith)

module _ (b : Bytes) (hb : All IsDecimalDigit b) where
  pub one_point :
      (a : Bytes)
      → All IsDecimalDigit a
      → (point_count (a ++ point ∷ b) ≡ 1)
        × (remove_point (a ++ point ∷ b) ≡ a ++ b)
        × (last_point (a ++ point ∷ b) ≡ length a)
  unfolding point_count remove_point last_point
  one_point [] h = let (e, f) = no_point b hb in (ground arith, f, rw e)
  one_point (c ∷ a) (hc, ha) =
      let (e, f, g) = one_point a ha in (ground arith, ground arith, rw (e, g))

pub take_front : (a b : Bytes) → take (length a) (a ++ b) ≡ a
take_front [] b = refl
take_front (c ∷ a) b = ap (◌∷◌ c) (take_front a b)

pub drop_front : (a : Bytes) (c : ℕ) (b : Bytes) → drop (length a + 1) (a ++ c ∷ b) ≡ b
drop_front [] c b = refl
drop_front (d ∷ a) c b =
    let e : suc (length a) + 1 ≡ suc (length a + 1) = omega arith in rw e (drop_front a c b)

pub zeros_digits : (k : ℕ) → All IsDecimalDigit (zeros k)
zeros_digits zero = tt
zeros_digits (suc k) = (refl, zeros_digits k)

pub take_digits : (k : ℕ) (s : Bytes) → All IsDecimalDigit s → All IsDecimalDigit (take k s)
take_digits zero s h = tt
take_digits (suc k) [] h = tt
take_digits (suc k) (c ∷ s) (hc, hs) = (hc, take_digits k s hs)

-- The fraction `b` in units of 10 ^ -d: its first `d` digits, filled up with zeros.
abbrev pub fraction_units : Bytes → ℕ → ℕ
fraction_units b d = number 10 (take d b) * 10 ^ (d - length b)

pub take_all : (k : ℕ) (s : Bytes) → length s ≤ k → take k s ≡ s
take_all zero [] h = refl
take_all zero (c ∷ s) h = absurd (omega arith)
take_all (suc k) [] h = refl
take_all (suc k) (c ∷ s) h = ap (◌∷◌ c) (take_all k s (omega arith))

length-take_least : (k : ℕ) (s : Bytes) → k ≤ length s → length (take k s) ≡ k
length-take_least zero s h = refl
length-take_least (suc k) [] h = absurd (omega arith)
length-take_least (suc k) (c ∷ s) h = ap suc (length-take_least k s (omega arith))

-- The fraction that the code builds has `d` digits, and spells those units.
pub fit_fraction_exact :
    (b : Bytes) (d : ℕ)
    → All IsDecimalDigit b
    → d - length b < 2 ^ 31
    → (number 10 (fit_fraction b d) ≡ fraction_units b d)
      × (length (fit_fraction b d) ≡ d)
      × All IsDecimalDigit (fit_fraction b d)
unfolding fit_fraction
fit_fraction_exact b d hb small = elim (Bool-cases (ltb d (length b))) [
  | inl long ↦
      let longer : d < length b = ground arith in
      let none_left : d - length b ≡ 0 = omega arith in
      rw long (rw none_left (omega arith), length-take_least d b (omega arith), take_digits d b hb)
  | inr short ↦
      let fits : length b ≤ d = ground arith in
      let k = d - length b in
      let count : to_count k ≡ k = ground arith in
      rw (short, count, take_all d b fits)
        (
          number_from-append 10 0 b (zeros k) ∙ number_from-zeros (number 10 b) k,
          length-append b (zeros k) ∙ omega (arith, length-replicate {A = ℕ} k b'0'),
          All-append IsDecimalDigit b (zeros k) hb (zeros_digits k),
        )
]

-- The part before the point, which the code drops where it is a lone 0.
unfoldable pub whole_part : Bytes → Bytes
whole_part a = if bytes_eq a (codes "0") then [] else a

pub whole_part_exact :
    (a : Bytes)
    → All IsDecimalDigit a
    → (number 10 (whole_part a) ≡ number 10 a) × All IsDecimalDigit (whole_part a)
unfolding whole_part
whole_part_exact a h = elim (Bool-cases (bytes_eq a (codes "0"))) [
  | inl lone ↦ rw (lone, (bytes_eq_iff a (codes "0")).0 lone) (refl, tt)
  | inr other ↦ rw other (refl, h)
]

pub no_leading_zeroes :
    (a b : Bytes) → has_leading_zeroes a ≡ false → has_leading_zeroes (a ++ point ∷ b) ≡ false
unfolding has_leading_zeroes
no_leading_zeroes [] [] h = refl
no_leading_zeroes [] (y ∷ b) h = refl
no_leading_zeroes (x ∷ []) b h = ground arith
no_leading_zeroes (x ∷ y ∷ a) b h = h

pub valid_if :
    (s t : Bytes)
    → has_leading_zeroes s ≡ false
    → remove_point s ≡ t
    → t ≢ []
    → All IsDecimalDigit t
    → is_valid_number s ≡ true
unfolding is_valid_number
valid_if s [] hs e ne ht = absurd (ne refl)
valid_if s (c ∷ t) hs e ne ht = rw (hs, e, All→digits_to_end (c ∷ t) ht)
