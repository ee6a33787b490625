-- ===== src/Transactions/TokenPayment/Canonical.antt =====
-- Amounts below a tenth keep the zeros behind the point at the front of the number's text.
use mx_sdk_cpp.Common.{
  ℕ, zero, suc, ◌-◌, ◌^◌, ◌≤◌, ◌<◌, ◌≡◌, ◌≢◌, refl, ap, ◌∙◌, sym, inl, inr, false, [], ◌∷◌, ◌++◌,
  Bytes, codes, length, take, All, ltb, bytes_eq, bytes_eq_iff, ok, arith, Bool-cases,
}
use mathlib.Core.List.{cons-ne-nil}
use mx_sdk_cpp.Common.Digits.{IsDecimalDigit, print, print-zero}
use mx_sdk_cpp.Common.Decimals.{zeros, print-Leads}
use mx_sdk_cpp.Libraries.Integers.{IntegerLib, IntegerLaws}
use mx_sdk_cpp.BigUInt.{BigUInt, equal}
use mx_sdk_cpp.BigUInt.Arithmetic.{from_string_digits, of_number}
use mx_sdk_cpp.Transactions.TokenPayment.{
  has_leading_zeroes, big_uint_from_val, fit_fraction, to_count,
}
use mx_sdk_cpp.Transactions.TokenPayment.Amounts.{fit_fraction_exact, whole_part}
use mx_sdk_cpp.Transactions.TokenPayment.Accept.{IsPointed, pointed_text}

fit_fraction_head : (c : Bytes) (k : ℕ) → (t : Bytes) × (fit_fraction (b'0' ∷ c) (suc k) ≡ b'0' ∷ t)
unfolding fit_fraction
fit_fraction_head c k = elim (Bool-cases (ltb (suc k) (suc (length c)))) [
  | inl long ↦ (take k c, rw long)
  | inr short ↦ (c ++ zeros (to_count (suc k - suc (length c))), rw short)
]

print_needs_no_zero : (n : ℕ) (t : Bytes) → t ≢ [] → b'0' ∷ t ≢ print 10 n
print_needs_no_zero zero t ne e = ne (ap tail_of (e ∙ print-zero 10))
  where
    tail_of : Bytes → Bytes
    tail_of [] = []
    tail_of (x ∷ s) = s
print_needs_no_zero (suc n) t ne e =
    let (c, s, f, nz) = print-Leads (suc n) (λ e. omega arith) in ground (arith, f)

-- Given the laws of the class `integer`, an amount `0.0c` with digits `c` is accepted with at
-- least two and fewer than 2 ^ 31 decimals, and `equal` tells the result from the shortest text of
-- every number.
pub from_val_not_shortest :
    (lib : IntegerLib) (laws : IntegerLaws lib) (c : Bytes) (d : ℕ)
    → All IsDecimalDigit c
    → 2 ≤ d
    → d < 2 ^ 31
    → (r : BigUInt) × (big_uint_from_val lib (codes "0.0" ++ c) d ≡ ok r)
      × ((n : ℕ) → equal r (of_number n) ≡ false)
unfolding equal whole_part has_leading_zeroes
from_val_not_shortest lib laws c zero h two few = absurd (omega arith)
from_val_not_shortest lib laws c (suc k) h two few =
    let d = suc k in
    let (is_fraction, size, digits) = fit_fraction_exact (b'0' ∷ c) d (refl, h) (omega arith) in
    let (t, starts) = fit_fraction_head c k in
    let long : suc (length t) ≡ d = sym (ap length starts) ∙ size in
    let more : t ≢ [] = λ e. let gone : length t ≡ 0 = ap length e in omega arith in
    let pointed : IsPointed (codes "0") (b'0' ∷ c) = record {
      whole_digits = (refl, tt);
      fraction_digits = (refl, h);
      some_digit = cons-ne-nil _ _;
      shortest = refl;
    } in
    (
      record { value = fit_fraction (b'0' ∷ c) d },
      pointed_text lib (codes "0") (b'0' ∷ c) d pointed
          ∙ from_string_digits lib laws (fit_fraction (b'0' ∷ c) d) digits,
      λ n. rw starts (elim (Bool-cases (bytes_eq (b'0' ∷ t) (print 10 n))) [
        | inl same ↦
            absurd (print_needs_no_zero n t more ((bytes_eq_iff (b'0' ∷ t) (print 10 n)).0 same))
        | inr differs ↦ differs
      ]),
    )
