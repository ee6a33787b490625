-- ===== src/Common/Digits.antt =====
-- Numbers as text in a base up to sixteen, with small letters: `std::to_string` in base ten.
use Prim.Native.Nat.{ℕ, zero, suc, ◌+◌, ◌-◌, ◌*◌, ◌/◌, ◌%◌, ◌≤◌, ◌<◌}
use mathlib.Core.Path.{◌≡◌, refl, ◌∙◌}
use mathlib.Core.Logic.{◌≢◌}
use mathlib.Core.Bool.{Bool, true, false, ◌&&◌}
use mathlib.Core.List.{[], ◌∷◌}
use native.Mathlib.Nat.{div-add-mod', div-lt_self, mod-lt}
use native.Mathlib.Omega.{arith}
use mx_sdk_cpp.Common.Tests.{ltb, leb, ◌==◌, if◌then◌else◌}
use mx_sdk_cpp.Common.Lists.{Bytes, All}

abbrev pub digit_char : ℕ → ℕ
digit_char d = if ltb d 10 then b'0' + d else b'a' + d - 10

abbrev pub char_value : ℕ → ℕ
char_value c = if ltb b'9' c then c + 10 - b'a' else c - b'0'

unfoldable pub print_loop : ℕ → ℕ → ℕ → Bytes → Bytes
print_loop zero base n out = out
print_loop (suc fuel) base n out = elim (n == 0) [
  | true ↦ out
  | false ↦ print_loop fuel base (n / base) (digit_char (n % base) ∷ out)
]

-- The digits of `n`, with no leading zero but for the number 0 itself.
unfoldable pub print : ℕ → ℕ → Bytes
unfolding print_loop
print base n = if n == 0 then b'0' ∷ [] else print_loop n base n []

-- The number that the digits `s` spell behind `acc`.
abbrev pub number_from : ℕ → ℕ → Bytes → ℕ
number_from base acc [] = acc
number_from base acc (c ∷ s) = number_from base (acc * base + char_value c) s

abbrev pub number : ℕ → Bytes → ℕ
number base = number_from base 0

abbrev pub is_decimal_digit : ℕ → Bool
is_decimal_digit c = leb b'0' c && leb c b'9'

abbrev pub IsDecimalDigit : ℕ → Type 0
IsDecimalDigit c = is_decimal_digit c ≡ true

pub char_value-digit_char : (d : ℕ) → d < 16 → char_value (digit_char d) ≡ d
char_value-digit_char d h = ground arith

pub print_loop_stop : (fuel base : ℕ) (out : Bytes) → print_loop fuel base 0 out ≡ out
unfolding print_loop
print_loop_stop zero base out = refl
print_loop_stop (suc fuel) base out = refl

pub print_loop_more :
    (fuel base n : ℕ) (out : Bytes)
    → n ≢ 0
    → print_loop (suc fuel) base n out
      ≡ print_loop fuel base (n / base) (digit_char (n % base) ∷ out)
unfolding print_loop
print_loop_more fuel base n out h = ground arith

pub print-zero : (base : ℕ) → print base 0 ≡ b'0' ∷ []
unfolding print
print-zero base = refl

pub print-suc : (base n : ℕ) → print base (suc n) ≡ print_loop (suc n) base (suc n) []
unfolding print
print-suc base n = ground arith

module _ (base : ℕ) (least : 2 ≤ base) (most : base ≤ 16) where
  rest_lt : (n : ℕ) → n ≢ 0 → n / base < n
  rest_lt n h = div-lt_self (omega arith) (omega arith)

  number-print_loop :
      (fuel n : ℕ) (out : Bytes)
      → n ≤ fuel
      → number base (print_loop fuel base n out) ≡ number_from base n out
  number-print_loop fuel zero out h = rw print_loop_stop
  number-print_loop zero (suc n) out h = absurd (omega arith)
  number-print_loop (suc fuel) (suc n) out h =
      let m = suc n in
      let low : char_value (digit_char (m % base)) ≡ m % base =
        char_value-digit_char _ (omega (arith, mod-lt m {m = base} (omega arith))) in
      rw (print_loop_more fuel base m out (λ e. omega arith)) (
        number-print_loop fuel (m / base) _ (omega (arith, rest_lt m (λ e. omega arith)))
        ∙ rw (low, div-add-mod' m base))

  -- The digits that are printed spell the number.
  pub number-print : (n : ℕ) → number base (print base n) ≡ n
  number-print zero = rw print-zero (omega arith)
  number-print (suc n) = rw print-suc (number-print_loop (suc n) (suc n) [] (omega arith))

  print_loop-All {κ} :
      (P : ℕ → Type κ) (digits : (d : ℕ) → d < base → P (digit_char d)) (fuel n : ℕ) (out : Bytes)
      → All P out
      → All P (print_loop fuel base n out)
  unfolding print_loop
  print_loop-All P digits zero n out h = h
  print_loop-All P digits (suc fuel) n out h =
      elim (n == 0)
        as (λ b. All P (elim b [
          | true ↦ out
          | false ↦ print_loop fuel base (n / base) (digit_char (n % base) ∷ out)
        ])) [
          | true ↦ h
          | false ↦
              print_loop-All P digits fuel (n / base) _
                (digits _ (mod-lt n {m = base} (omega arith)), h)
        ]

  pub print-All {κ} :
      (P : ℕ → Type κ) (digits : (d : ℕ) → d < base → P (digit_char d)) (n : ℕ)
      → All P (print base n)
  print-All P digits zero = rw print-zero (digits 0 (omega arith), tt)
  print-All P digits (suc n) = rw print-suc (print_loop-All P digits (suc n) (suc n) [] tt)

pub print-IsDecimalDigit : (n : ℕ) → All IsDecimalDigit (print 10 n)
print-IsDecimalDigit n =
    print-All 10 (omega arith) (omega arith) IsDecimalDigit (λ d h. ground arith) n
