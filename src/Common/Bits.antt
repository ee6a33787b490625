-- ===== src/Common/Bits.antt =====
-- Bit operations of the machine words as arithmetic, at the widths that the code uses.
use Prim.Native.Nat.{
  ℕ, zero, suc, ◌+◌, ◌*◌, ◌/◌, ◌%◌, ◌^◌, ◌≤◌, ◌<◌, min, max, bit_and, bit_or, digits,
  bit_and-bitwise, bit_or-bitwise,
}
use mathlib.Core.Path.{◌≡◌, refl, ap}
use mathlib.Core.Bool.{Bool, true, ◌&&◌}
use native.Mathlib.Nat.{pow-suc, mul_comm}
use native.Mathlib.Omega.{arith}

-- Over a small range a law is checked at every value.
unfoldable pub all_below : ℕ → (ℕ → Bool) → Bool
all_below zero test = true
all_below (suc bound) test = all_below bound test && test bound

pub all_below_sound :
    (bound : ℕ) (test : ℕ → Bool) (v : ℕ) → all_below bound test ≡ true → v < bound → test v ≡ true
unfolding all_below
all_below_sound zero test v all small = absurd (omega arith)
all_below_sound (suc bound) test v all small = ground (arith, all_below_sound bound test v)

-- The recursion on binary digits behind both operations does not depend on its fuel.
module _ (rest : ℕ → ℕ) (op : ℕ → ℕ → ℕ) where
  enough_fuel : (m n a b : ℕ) → a ≤ m → a ≤ n → digits rest op m a b ≡ digits rest op n a b
  enough_fuel zero zero a b p q = refl
  enough_fuel zero (suc n) zero b p q = refl
  enough_fuel zero (suc n) (suc a) b p q = absurd (omega arith)
  enough_fuel (suc m) zero zero b p q = refl
  enough_fuel (suc m) zero (suc a) b p q = absurd (omega arith)
  enough_fuel (suc m) (suc n) zero b p q = refl
  enough_fuel (suc m) (suc n) (suc a) b p q =
      rw (enough_fuel m n (suc a / 2) (b / 2) (omega arith) (omega arith))

pub bit_and-halves : (a b : ℕ) → bit_and a b ≡ bit_and (a / 2) (b / 2) * 2 + min (a % 2) (b % 2)
bit_and-halves zero b = simp bit_and-bitwise (omega arith)
bit_and-halves (suc a) b = omega (
  arith,
  bit_and-bitwise (suc a) b,
  bit_and-bitwise (suc a / 2) (b / 2),
  enough_fuel (λ y. 0) min a (suc a / 2) (suc a / 2) (b / 2) (omega arith) (omega arith),
)

pub bit_or-halves : (a b : ℕ) → bit_or a b ≡ bit_or (a / 2) (b / 2) * 2 + max (a % 2) (b % 2)
bit_or-halves zero b = simp bit_or-bitwise (omega arith)
bit_or-halves (suc a) b = omega (
  arith,
  bit_or-bitwise (suc a) b,
  bit_or-bitwise (suc a / 2) (b / 2),
  enough_fuel (λ y. y) max a (suc a / 2) (suc a / 2) (b / 2) (omega arith) (omega arith),
)

bit_and-zero_fuel : (n a : ℕ) → a ≤ n → bit_and a 0 ≡ 0
bit_and-zero_fuel zero zero h = refl
bit_and-zero_fuel zero (suc a) h = absurd (omega arith)
bit_and-zero_fuel (suc n) zero h = refl
bit_and-zero_fuel (suc n) (suc a) h =
    omega (arith, bit_and-halves (suc a) 0, bit_and-zero_fuel n (suc a / 2) (omega arith))

bit_or-zero_fuel : (n a : ℕ) → a ≤ n → bit_or a 0 ≡ a
bit_or-zero_fuel zero zero h = refl
bit_or-zero_fuel zero (suc a) h = absurd (omega arith)
bit_or-zero_fuel (suc n) zero h = refl
bit_or-zero_fuel (suc n) (suc a) h =
    omega (arith, bit_or-halves (suc a) 0, bit_or-zero_fuel n (suc a / 2) (omega arith))

-- `x & m` at a mask of ones, from the mask of one bit less.
module _ (x : ℕ) where
  pub bit_and-zero : bit_and x 0 ≡ 0
  bit_and-zero = bit_and-zero_fuel x x (omega arith)

  pub bit_or-zero : bit_or x 0 ≡ x
  bit_or-zero = bit_or-zero_fuel x x (omega arith)

and_1 : (x : ℕ) → bit_and x 1 ≡ x % 2
and_1 x = omega (arith, bit_and-halves x 1, bit_and-zero (x / 2))

and_3 : (x : ℕ) → bit_and x 3 ≡ x % 4
and_3 x = omega (arith, bit_and-halves x 3, and_1 (x / 2))

and_7 : (x : ℕ) → bit_and x 7 ≡ x % 8
and_7 x = omega (arith, bit_and-halves x 7, and_3 (x / 2))

pub and_15 : (x : ℕ) → bit_and x 15 ≡ x % 16
and_15 x = omega (arith, bit_and-halves x 15, and_7 (x / 2))

pub and_31 : (x : ℕ) → bit_and x 31 ≡ x % 32
and_31 x = omega (arith, bit_and-halves x 31, and_15 (x / 2))

pub and_63 : (x : ℕ) → bit_and x 63 ≡ x % 64
and_63 x = omega (arith, bit_and-halves x 63, and_31 (x / 2))

and_127 : (x : ℕ) → bit_and x 127 ≡ x % 128
and_127 x = omega (arith, bit_and-halves x 127, and_63 (x / 2))

pub and_255 : (x : ℕ) → bit_and x 255 ≡ x % 256
and_255 x = omega (arith, bit_and-halves x 255, and_127 (x / 2))

and_511 : (x : ℕ) → bit_and x 511 ≡ x % 512
and_511 x = omega (arith, bit_and-halves x 511, and_255 (x / 2))

and_1023 : (x : ℕ) → bit_and x 1023 ≡ x % 1024
and_1023 x = omega (arith, bit_and-halves x 1023, and_511 (x / 2))

and_2047 : (x : ℕ) → bit_and x 2047 ≡ x % 2048
and_2047 x = omega (arith, bit_and-halves x 2047, and_1023 (x / 2))

pub and_4095 : (x : ℕ) → bit_and x 4095 ≡ x % 4096
and_4095 x = omega (arith, bit_and-halves x 4095, and_2047 (x / 2))

shift_halves : (n b : ℕ) → bit_or (2 * n) b ≡ bit_or n (b / 2) * 2 + b % 2
shift_halves n b =
    let half : 2 * n / 2 ≡ n = omega arith in
    let digit : max (2 * n % 2) (b % 2) ≡ b % 2 = omega arith in
    rw (bit_or-halves (2 * n) b, half, digit)

-- A number above bit `k` and one below it share no bit, so `|` adds them.
pub bit_or-shifted : (k a b : ℕ) → b < 2 ^ k → bit_or (a * 2 ^ k) b ≡ a * 2 ^ k + b
bit_or-shifted zero a zero h = omega (arith, bit_or-zero (a * 1))
bit_or-shifted zero a (suc b) h = absurd (omega arith)
bit_or-shifted (suc k) a b h =
    let p = 2 ^ k in
    let double : 2 ^ suc k ≡ 2 * p = simp (pow-suc, mul_comm) in
    let even : a * 2 ^ suc k ≡ 2 * (a * p) = omega (arith, ap (λ (t : ℕ). a * t) double) in
    let low : bit_or (a * p) (b / 2) ≡ a * p + b / 2 =
      bit_or-shifted k a (b / 2) (omega (arith, double)) in
    rw (even, shift_halves, low) (omega arith)
