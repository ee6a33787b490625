-- ===== src/Transactions/TokenPayment/Accept.antt =====
-- `bigUIntFromVal` on the amounts that it accepts.
use mx_sdk_cpp.Common.{Bool, ◌==◌, refl, arith}
use mx_sdk_cpp.Common.{
  ℕ, ◌+◌, ◌-◌, ◌*◌, ◌^◌, ◌<◌, ◌≡◌, ◌≢◌, ◌∙◌, true, false, [], ◌∷◌, ◌++◌, Bytes, length, All,
  All-append, ok,
}
use mx_sdk_cpp.Common.Digits.{IsDecimalDigit, number}
use mx_sdk_cpp.Common.Decimals.{zeros, number_from-append, number_from-zeros, number_from_weight}
use mx_sdk_cpp.Libraries.Integers.{IntegerLib, IntegerLaws}
use mx_sdk_cpp.BigUInt.{BigUInt, from_string}
use mx_sdk_cpp.BigUInt.Arithmetic.{from_string_digits, Represents}
use mx_sdk_cpp.Transactions.TokenPayment.{
  point, has_leading_zeroes, is_valid_number, fit_fraction, big_uint_from_val,
}
use mx_sdk_cpp.Transactions.TokenPayment.Amounts.{
  no_point, one_point, take_front, drop_front, zeros_digits, fraction_units, fit_fraction_exact,
  whole_part, whole_part_exact, no_leading_zeroes, valid_if,
}

-- A 0 in front of another digit.
abbrev pub needless_zero : Bytes → Bool
needless_zero [] = false
needless_zero (c ∷ []) = false
needless_zero (c ∷ d ∷ s) = c == b'0'

-- On digits alone the code's test is the same.
pub leading-needless : (s : Bytes) → All IsDecimalDigit s → has_leading_zeroes s ≡ needless_zero s
unfolding has_leading_zeroes
leading-needless [] h = refl
leading-needless (c ∷ []) h = refl
leading-needless (c ∷ d ∷ s) (hc, (hd, hs)) = ground arith

-- Digits with no needless 0 in front.
pub record IsWhole (s : Bytes) : Type 0 where
  pub digits : All IsDecimalDigit s
  pub some_digit : s ≢ []
  pub shortest : needless_zero s ≡ false

-- Digits on both sides of a point, one at least, with no needless 0 in front.
pub record IsPointed (a b : Bytes) : Type 0 where
  pub whole_digits : All IsDecimalDigit a
  pub fraction_digits : All IsDecimalDigit b
  pub some_digit : a ++ b ≢ []
  pub shortest : needless_zero a ≡ false

module _ (lib : IntegerLib) where
  -- The text that is handed to the constructor.
  pub whole_text :
      (s : Bytes) (d : ℕ) → IsWhole s → big_uint_from_val lib s d ≡ from_string lib (s ++ zeros d)
  unfolding big_uint_from_val
  whole_text s d w =
      let (none_at_all, kept) = no_point s w.digits in
      rw (
        none_at_all,
        valid_if s s (leading-needless s w.digits ∙ w.shortest) kept w.some_digit w.digits,
      )

  pub pointed_text :
      (a b : Bytes) (d : ℕ)
      → IsPointed a b
      → big_uint_from_val lib (a ++ point ∷ b) d
        ≡ from_string lib (whole_part a ++ fit_fraction b d)
  unfolding big_uint_from_val whole_part
  pointed_text a b d p =
      let (one, joined, at) = one_point b p.fraction_digits a p.whole_digits in
      let digits : All IsDecimalDigit (a ++ b) =
        All-append IsDecimalDigit a b p.whole_digits p.fraction_digits in
      let valid : is_valid_number (a ++ point ∷ b) ≡ true =
        valid_if (a ++ point ∷ b) (a ++ b)
          (no_leading_zeroes a b (leading-needless a p.whole_digits ∙ p.shortest)) joined
          p.some_digit digits in
      rw (one, valid, at, take_front a (point ∷ b), drop_front a point b)

module _ (lib : IntegerLib) (laws : IntegerLaws lib) where
  -- Given the laws of the class `integer`, an amount of digits, one at least, with no needless 0
  -- in front, is accepted and stands for its number times 10 ^ d.
  pub from_val_whole :
      (s : Bytes) (d : ℕ)
      → IsWhole s
      → (r : BigUInt) × (big_uint_from_val lib s d ≡ ok r) × Represents r (number 10 s * 10 ^ d)
  from_val_whole s d w =
      let digits : All IsDecimalDigit (s ++ zeros d) =
        All-append IsDecimalDigit s (zeros d) w.digits (zeros_digits d) in
      (
        record { value = s ++ zeros d },
        whole_text lib s d w ∙ from_string_digits lib laws (s ++ zeros d) digits,
        record {
          digits = digits;
          spells = number_from-append 10 0 s (zeros d) ∙ number_from-zeros (number 10 s) d;
        },
      )

  -- Given the laws of the class `integer`, an amount `a.b` of digits, one at least, with no
  -- needless 0 in front of `a`, is accepted where fewer than 2 ^ 31 decimals are missing behind
  -- `b`, and stands for `a` times 10 ^ d and the first `d` digits of `b` in their places.
  pub from_val_pointed :
      (a b : Bytes) (d : ℕ)
      → IsPointed a b
      → d - length b < 2 ^ 31
      → (r : BigUInt) × (big_uint_from_val lib (a ++ point ∷ b) d ≡ ok r)
        × Represents r (number 10 a * 10 ^ d + fraction_units b d)
  from_val_pointed a b d p small =
      let text = whole_part a ++ fit_fraction b d in
      let (is_whole, whole_ok) = whole_part_exact a p.whole_digits in
      let (is_fraction, size, fraction_ok) = fit_fraction_exact b d p.fraction_digits small in
      let digits : All IsDecimalDigit text =
        All-append IsDecimalDigit (whole_part a) (fit_fraction b d) whole_ok fraction_ok in
      (
        record { value = text },
        pointed_text lib a b d p ∙ from_string_digits lib laws text digits,
        record {
          digits = digits;
          spells =
              number_from-append 10 0 (whole_part a) (fit_fraction b d)
              ∙ number_from_weight (number 10 (whole_part a)) (fit_fraction b d)
              ∙ rw (is_whole, is_fraction, size);
        },
      )
