-- ===== src/Utils/ConvertBits/Rounds.antt =====
-- One round of `convertBits` in plain arithmetic, from bytes to groups of five bits and back.
use mx_sdk_cpp.Common.{ℕ, ◌+◌, ◌*◌, ◌/◌, ◌%◌, ◌^◌, ◌<◌, ◌≡◌, Bool, ◌∷◌, Bytes, bit_and, arith}
use mx_sdk_cpp.Common.Bits.{bit_or-shifted, and_4095, and_255, and_31}
use mx_sdk_cpp.Utils.ConvertBits.{absorb, drain, convert_loop}

pub absorb_byte :
    (padded : Bool) (acc v : ℕ)
    → acc < 4096
    → v < 256
    → absorb 8 5 padded acc v ≡ (acc * 256 + v) % 4096
absorb_byte padded acc v ha hv =
    let fits : acc * 2 ^ 8 % 2 ^ 32 ≡ acc * 2 ^ 8 = omega arith in
    rw (fits, bit_or-shifted 8 acc v hv) (and_4095 _)

pub absorb_group :
    (padded : Bool) (acc v : ℕ)
    → acc < 4096
    → v < 32
    → absorb 5 8 padded acc v ≡ (acc * 32 + v) % 4096
absorb_group padded acc v ha hv =
    let fits : acc * 2 ^ 5 % 2 ^ 32 ≡ acc * 2 ^ 5 = omega arith in
    rw (fits, bit_or-shifted 5 acc v hv) (and_4095 _)

pub byte_mask : (v : ℕ) → v < 256 → bit_and v 0xff ≡ v
byte_mask v h = rw and_255 (omega arith)

-- A value that fits is taken in, and whole groups go out.
pub byte_round :
    (padded : Bool) (v : ℕ) (s : Bytes) (acc bits : ℕ) (ret : Bytes)
    → acc < 4096
    → v < 256
    → convert_loop 8 5 padded (v ∷ s) acc bits ret ≡ (
        let acc' = (acc * 256 + v) % 4096 in
        let out = drain (bits + 8) 5 acc' (bits + 8) ret in
        convert_loop 8 5 padded s acc' out.0 out.1)
unfolding convert_loop
byte_round padded v s acc bits ret ha hv =
    let small : v / 2 ^ 8 ≡ 0 = omega arith in
    rw (byte_mask v hv, small, absorb_byte padded acc v ha hv)

pub group_round :
    (padded : Bool) (v : ℕ) (s : Bytes) (acc bits : ℕ) (ret : Bytes)
    → acc < 4096
    → v < 32
    → convert_loop 5 8 padded (v ∷ s) acc bits ret ≡ (
        let acc' = (acc * 32 + v) % 4096 in
        let out = drain (bits + 5) 8 acc' (bits + 5) ret in
        convert_loop 5 8 padded s acc' out.0 out.1)
unfolding convert_loop
group_round padded v s acc bits ret ha hv =
    let small : v / 2 ^ 5 ≡ 0 = omega arith in
    rw (byte_mask v (omega arith), small, absorb_group padded acc v ha hv)

-- acc with one more byte, or one more group of five bits.
abbrev pub with_byte : ℕ → ℕ → ℕ
with_byte acc v = (acc * 256 + v) % 4096

abbrev pub with_group : ℕ → ℕ → ℕ
with_group acc v = (acc * 32 + v) % 4096

-- An element that is pushed, read as arithmetic.
pub group_mask : (x : ℕ) → bit_and x 31 % 256 ≡ x % 32
group_mask x = rw and_31 (omega arith)

pub byte_mask_pushed : (x : ℕ) → bit_and x 255 % 256 ≡ x % 256
byte_mask_pushed x = rw and_255 (omega arith)
