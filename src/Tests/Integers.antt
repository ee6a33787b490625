-- ===== src/Tests/Integers.antt =====
-- The class `integer` as a library of functions on ℤ.
use mx_sdk_cpp.Common.{
  ℕ, suc, ◌+◌, ◌/◌, ◌%◌, ◌≡◌, ◌≢◌, ◌⊎◌, refl, Bool, true, false, ◌&&◌, [], ◌∷◌, Bytes, All, Result,
  ok, err, library, ◌==◌, if◌then◌else◌, arith,
}
use mx_sdk_cpp.Common.Int.{ℤ, pos, negsuc, ◌+ℤ◌, ◌-ℤ◌, ◌*ℤ◌, is_negative, ltb_ℤ}
use mx_sdk_cpp.Common.Digits.{print, number, IsDecimalDigit, is_decimal_digit, number-print}
use mx_sdk_cpp.Libraries.Integers.{IntegerLib, IntegerLaws}

abbrev all_digits : Bytes → Bool
all_digits [] = true
all_digits (c ∷ s) = is_decimal_digit c && all_digits s

abbrev parse : Bytes → Result ℤ
parse [] = ok (pos 0)
parse (c ∷ s) =
    if c == b'-'
    then ok (pos 0 -ℤ pos (number 10 s))
    else if all_digits (c ∷ s)
    then ok (pos (number 10 (c ∷ s)))
    else err (library [])

abbrev str : ℤ → ℕ → Bytes
str (pos n) base = print base n
str (negsuc n) base = b'-' ∷ print base (n + 1)

-- Truncated division; the remainder has the sign of the dividend.
abbrev divide : ℤ → ℤ → ℤ × ℤ
divide (pos m) (pos n) = (pos (m / n), pos (m % n))
divide (pos m) (negsuc n) = (pos 0 -ℤ pos (m / suc n), pos (m % suc n))
divide (negsuc m) (pos n) = (pos 0 -ℤ pos (suc m / n), pos 0 -ℤ pos (suc m % n))
divide (negsuc m) (negsuc n) = (pos (suc m / suc n), pos 0 -ℤ pos (suc m % suc n))

abbrev is_zero : ℤ → Bool
is_zero (pos n) = n == 0
is_zero (negsuc n) = false

abbrev pub integers : IntegerLib
integers = record {
  Integer = ℤ;
  parse = parse;
  str = str;
  negative = is_negative;
  add = ◌+ℤ◌;
  sub = ◌-ℤ◌;
  mul = ◌*ℤ◌;
  divmod = λ i j. if is_zero j then err (library []) else ok (divide i j);
  lt = ltb_ℤ;
  gt = λ i j. ltb_ℤ j i;
}

all_digits-All : (s : Bytes) → All IsDecimalDigit s → all_digits s ≡ true
all_digits-All [] h = refl
all_digits-All (c ∷ s) (hc, hs) = rw (hc, all_digits-All s hs)

no_minus : (c : ℕ) → IsDecimalDigit c → (c == b'-') ≡ false
no_minus c h = ground arith

parse_digits :
    (s : Bytes) → All IsDecimalDigit s → (i : ℤ) × (parse s ≡ ok i) × (i ≡ pos (number 10 s))
parse_digits [] h = (pos 0, refl, refl)
parse_digits (c ∷ s) (hc, hs) =
    (pos (number 10 (c ∷ s)), rw (no_minus c hc, hc, all_digits-All s hs), refl)

str_pos : (i : ℤ) (n base : ℕ) → i ≡ pos n → (base ≡ 10) ⊎ (base ≡ 16) → str i base ≡ print base n
str_pos i n base h b = rw h

division :
    (i j : ℤ) (m n : ℕ)
    → i ≡ pos m
    → j ≡ pos n
    → n ≢ 0
    → (q : ℤ) × (r : ℤ) × ((if is_zero j then err (library []) else ok (divide i j)) ≡ ok (q, r))
      × (q ≡ pos (m / n))
      × (r ≡ pos (m % n))
division i j m n hi hj h = (pos (m / n), pos (m % n), rw (hi, hj) (ground arith), refl, refl)

pub integer_laws : IntegerLaws integers
integer_laws = record {
  value = λ i. i;
  parse_digits = parse_digits;
  parse_minus = λ n h. (pos 0 -ℤ pos n, rw (number-print 10 (omega arith) (omega arith) n), refl);
  str_pos = str_pos;
  str_negsuc = λ i n h. rw h;
  negative_value = λ i. refl;
  value-add = λ i j. refl;
  value-sub = λ i j. refl;
  value-mul = λ i j. refl;
  value-divmod = division;
  divmod_zero = λ i j h. (library [], rw h);
  lt_value = λ i j. refl;
  gt_value = λ i j. refl;
}
