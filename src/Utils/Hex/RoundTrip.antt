-- ===== src/Utils/Hex/RoundTrip.antt =====
-- What `stringToHex` writes, and that both readers read it back.
use mx_sdk_cpp.Common.{
  ℕ, ◌+◌, ◌*◌, ◌/◌, ◌%◌, ◌^◌, ◌<◌, ◌≡◌, refl, ap, ◌∙◌, sym, Bool, true, false, [], ◌∷◌, ◌++◌, Bytes,
  append_assoc, append-nil, IsByte, All, length, get_or, ◌==◌, ==_iff, bit_and, Result, ok, err,
  arith,
}
use mx_sdk_cpp.Common.Bits.{
  and_15, all_below, all_below_sound, bit_or-shifted, bit_and-halves, bit_and-zero,
}
use mx_sdk_cpp.Utils.Hex.{
  hex_digits, string_to_hex, string_to_hex_loop, hex_value, hex_to_string, hex_to_string_loop,
  hex_to_bytes, strtol16, strtol_sign, strtol_digits, hex_digit?, is_space, to_byte,
}

-- The two characters of each byte, the high half first.
abbrev pub digit : ℕ → ℕ
digit v = get_or hex_digits v 0

unfoldable pub pairs : Bytes → Bytes
pairs [] = []
pairs (c ∷ s) = digit (c / 16) ∷ digit (c % 16) ∷ pairs s

string_to_hex_loop-pairs : (s out : Bytes) → string_to_hex_loop s out ≡ out ++ pairs s
unfolding string_to_hex_loop pairs
string_to_hex_loop-pairs [] out = sym (append-nil out)
string_to_hex_loop-pairs (c ∷ s) out =
    rw (and_15 c) (string_to_hex_loop-pairs s _ ∙ simp append_assoc)

pub string_to_hex-pairs : (s : Bytes) → string_to_hex s ≡ pairs s
unfolding string_to_hex
string_to_hex-pairs s = string_to_hex_loop-pairs s []

abbrev is_ok : ℕ → Result ℕ → Bool
is_ok v (ok w) = w == v
is_ok v (err e) = false

is_ok→eq : (v : ℕ) (r : Result ℕ) → is_ok v r ≡ true → r ≡ ok v
is_ok→eq v (ok w) h = ground arith
is_ok→eq v (err e) h = cc

values : all_below 16 (λ v. is_ok v (hex_value (digit v))) ≡ true
unfolding all_below hex_value
values = refl

pub hex_value-digit : (v : ℕ) → v < 16 → hex_value (digit v) ≡ ok v
hex_value-digit v h = is_ok→eq v _ (all_below_sound 16 _ v values h)

length-pairs : (s : Bytes) → length (pairs s) ≡ 2 * length s
unfolding pairs
length-pairs [] = refl
length-pairs (c ∷ s) = omega (arith, length-pairs s)

pub and_1 : (x : ℕ) → bit_and x 1 ≡ x % 2
and_1 x = omega (arith, bit_and-halves x 1, bit_and-zero (x / 2))

hex_to_string_loop-pairs :
    (s out : Bytes) → All IsByte s → hex_to_string_loop (pairs s) out ≡ ok (out ++ s)
unfolding pairs hex_to_string_loop
hex_to_string_loop-pairs [] out h = rw append-nil
hex_to_string_loop-pairs (c ∷ s) out (hc, hs) =
    let joined : c / 16 * 2 ^ 4 + c % 16 ≡ c = omega arith in
    let byte : c % 256 ≡ c = omega arith in
    rw
      (
        hex_value-digit (c / 16) (omega arith),
        hex_value-digit (c % 16) (omega arith),
        bit_or-shifted 4 (c / 16) (c % 16) (omega arith),
        joined,
        byte,
      )
      (hex_to_string_loop-pairs s (out ++ c ∷ []) hs ∙ ap ok (append_assoc out _ _))

pub hex_to_string-string_to_hex :
    (s : Bytes) → All IsByte s → hex_to_string (string_to_hex s) ≡ ok s
unfolding hex_to_string
hex_to_string-string_to_hex s h =
    let even : bit_and (length (pairs s)) 1 ≡ 0 =
      omega (arith, and_1 (length (pairs s)), length-pairs s) in
    rw (string_to_hex-pairs, even) (hex_to_string_loop-pairs s [] h)

abbrev reads : ℕ → Bool
reads c = to_byte (strtol16 (digit (c / 16) ∷ digit (c % 16) ∷ [])) == c

readings : all_below 256 reads ≡ true
unfolding all_below strtol16 strtol_sign strtol_digits hex_digit? is_space
readings = refl

reading : (c : ℕ) → c < 256 → to_byte (strtol16 (digit (c / 16) ∷ digit (c % 16) ∷ [])) ≡ c
reading c h = (==_iff _ c).0 (all_below_sound 256 reads c readings h)

two_characters :
    (a b : ℕ) (s : Bytes)
    → hex_to_bytes (a ∷ b ∷ s) ≡ to_byte (strtol16 (a ∷ b ∷ [])) ∷ hex_to_bytes s
unfolding hex_to_bytes
two_characters a b s = refl

hex_to_bytes-pairs : (s : Bytes) → All IsByte s → hex_to_bytes (pairs s) ≡ s
unfolding pairs
hex_to_bytes-pairs [] h = unfold hex_to_bytes in refl
hex_to_bytes-pairs (c ∷ s) (hc, hs) = rw (
  two_characters (digit (c / 16)) (digit (c % 16)) (pairs s),
  reading c hc,
  hex_to_bytes-pairs s hs,
)

pub hex_to_bytes-string_to_hex : (s : Bytes) → All IsByte s → hex_to_bytes (string_to_hex s) ≡ s
hex_to_bytes-string_to_hex s h = rw string_to_hex-pairs (hex_to_bytes-pairs s h)
