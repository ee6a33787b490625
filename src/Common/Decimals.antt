-- ===== src/Common/Decimals.antt =====
-- Decimal texts put together: zeros before and behind, the length of a number's digits.
use Prim.Native.Nat.{ℕ, zero, suc, ◌+◌, ◌*◌, ◌/◌, ◌%◌, ◌^◌, ◌≤◌, ◌<◌}
use mathlib.Core.Path.{◌≡◌, refl, ◌∙◌, ap}
use mathlib.Core.Logic.{◌≢◌, inl, inr}
use mathlib.Core.List.{[], ◌∷◌, ◌++◌}
use native.Mathlib.Nat.{pow-suc}
use native.Mathlib.Omega.{arith}
use mx_sdk_cpp.Common.Tests.{◌==◌, ==_iff, Bool-cases}
use mx_sdk_cpp.Common.Lists.{Bytes, length, replicate}
use mx_sdk_cpp.Common.Digits.{
  print, print_loop, print_loop_stop, print_loop_more, print-zero, print-suc, number, number_from,
  char_value, digit_char,
}

abbrev pub zeros : ℕ → Bytes
zeros n = replicate n b'0'

pub number_from-append :
    (base acc : ℕ) (s t : Bytes)
    → number_from base acc (s ++ t) ≡ number_from base (number_from base acc s) t
number_from-append base acc [] t = refl
number_from-append base acc (c ∷ s) t = number_from-append base (acc * base + char_value c) s t

pub number_from-zeros : (acc k : ℕ) → number_from 10 acc (zeros k) ≡ acc * 10 ^ k
number_from-zeros acc zero = omega arith
number_from-zeros acc (suc k) =
    number_from-zeros (acc * 10 + 0) k ∙ omega (arith, ap (λ (t : ℕ). acc * t) (pow-suc 10 k))

pub number-zeros-append : (k : ℕ) (s : Bytes) → number 10 (zeros k ++ s) ≡ number 10 s
number-zeros-append zero s = refl
number-zeros-append (suc k) s = number-zeros-append k s

-- The digits in front weigh 10 ^ n each.
pub number_from_weight :
    (acc : ℕ) (s : Bytes) → number_from 10 acc s ≡ acc * 10 ^ length s + number 10 s
number_from_weight acc [] = omega arith
number_from_weight acc (c ∷ s) =
    let p = 10 ^ length s in
    let v = char_value c in
    omega (
      arith,
      number_from_weight (acc * 10 + v) s,
      number_from_weight (0 * 10 + v) s,
      ap (λ (t : ℕ). acc * t) (pow-suc 10 (length s)),
    )

length-print_loop :
    (fuel n k : ℕ) (out : Bytes) → n < 10 ^ k → length (print_loop fuel 10 n out) ≤ k + length out
length-print_loop fuel zero k out h = rw print_loop_stop (omega arith)
length-print_loop zero (suc n) k out h = unfold print_loop in omega arith
length-print_loop (suc fuel) (suc n) zero out h = absurd (omega arith)
length-print_loop (suc fuel) (suc n) (suc k) out h =
    let m = suc n in
    let small : m / 10 < 10 ^ k = omega (arith, pow-suc 10 k) in
    rw (print_loop_more fuel 10 m out (λ e. omega arith))
      (omega (arith, length-print_loop fuel (m / 10) k (digit_char (m % 10) ∷ out) small))

-- A number below 10 ^ k has k digits at most.
pub length-print : (n k : ℕ) → n < 10 ^ k → 1 ≤ k → length (print 10 n) ≤ k
length-print zero k h least = rw print-zero (omega arith)
length-print (suc n) k h least =
    rw print-suc (omega (arith, length-print_loop (suc n) (suc n) k [] h))

-- The first digit of a positive number is not 0.
abbrev pub Leads : Bytes → Type 0
Leads s = (c : ℕ) × (t : Bytes) × (s ≡ c ∷ t) × (c ≢ b'0')

print_loop-Leads : (fuel n : ℕ) (out : Bytes) → n ≢ 0 → n ≤ fuel → Leads (print_loop fuel 10 n out)
print_loop-Leads fuel zero out h le = absurd (h refl)
print_loop-Leads zero (suc n) out h le = absurd (omega arith)
print_loop-Leads (suc fuel) (suc n) out h le =
    let m = suc n in
    elim (Bool-cases (m / 10 == 0)) [
      | inl last ↦
          let gone : m / 10 ≡ 0 = (==_iff _ 0).0 last in
          (
            digit_char (m % 10),
            out,
            print_loop_more fuel 10 m out h ∙ rw (gone, print_loop_stop),
            ground arith,
          )
      | inr more ↦
          let (c, t, e, ne) =
            print_loop-Leads fuel (m / 10) (digit_char (m % 10) ∷ out) (ground arith)
              (omega arith) in
          (c, t, print_loop_more fuel 10 m out h ∙ e, ne)
    ]

pub print-Leads : (n : ℕ) → n ≢ 0 → Leads (print 10 n)
print-Leads zero h = absurd (h refl)
print-Leads (suc n) h = rw print-suc (print_loop-Leads (suc n) (suc n) [] h (omega arith))

pub print-ne-nil : (n : ℕ) → 1 ≤ length (print 10 n)
print-ne-nil zero = rw print-zero (omega arith)
print-ne-nil (suc n) =
    let (c, t, e, _) = print-Leads (suc n) (λ e. omega arith) in rw e (omega arith)
