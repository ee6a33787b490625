-- ===== src/Utils/Hex.antt =====
-- src/utils/hex.cpp. `strtol` is the one of the C library, at base 16 and on two characters at most.
pub mod RoundTrip
pub mod Errors
use mx_sdk_cpp.Common.{
  ℕ, zero, suc, ◌+◌, ◌-◌, ◌*◌, ◌/◌, ◌%◌, ◌^◌, ◌≡◌, refl, Bool, ◌&&◌, ◌||◌, List, [], ◌∷◌, ◌++◌,
  Option, none, some, Bytes, codes, length, get_or, replicate, leb, ◌==◌, if◌then◌else◌, bit_and,
  bit_or, Result, ok, err, invalid_argument, ◌>>=◌,
}
use mx_sdk_cpp.Common.Int.{ℤ, pos, negsuc, ◌-ℤ◌, eq_ℤ, pos_part}
use mx_sdk_cpp.Utils.Errors.{error_msg_hex}

abbrev minus_ones : ℕ → List ℤ
minus_ones n = replicate n (negsuc 0)

letter_values : List ℤ
letter_values = pos 10 ∷ pos 11 ∷ pos 12 ∷ pos 13 ∷ pos 14 ∷ pos 15 ∷ []

-- The 256 entries: the digits at 48, the capitals at 65, the small letters at 97.
hex_values : List ℤ
unfolding letter_values
hex_values =
    minus_ones 48
    ++ ((pos 0 ∷ pos 1 ∷ pos 2 ∷ pos 3 ∷ pos 4 ∷ pos 5 ∷ pos 6 ∷ pos 7 ∷ pos 8 ∷ pos 9 ∷ [])
        ++ (minus_ones 7
            ++ (letter_values ++ (minus_ones 26 ++ (letter_values ++ minus_ones 153)))))

pub hex_value : ℕ → Result ℕ
unfolding hex_values
hex_value hex_digit =
    let value = get_or hex_values hex_digit (negsuc 0) in
    if eq_ℤ value (negsuc 0) then err (invalid_argument error_msg_hex) else ok (pos_part value)

abbrev hex_digits : Bytes
hex_digits = codes "0123456789abcdef"

pub string_to_hex_loop : Bytes → Bytes → Bytes
string_to_hex_loop [] output = output
string_to_hex_loop (c ∷ input) output =
    string_to_hex_loop input
      ((output ++ get_or hex_digits (c / 2 ^ 4) 0 ∷ []) ++ get_or hex_digits (bit_and c 15) 0 ∷ [])

unfoldable pub string_to_hex : Bytes → Bytes
unfolding string_to_hex_loop
string_to_hex input = string_to_hex_loop input []

-- The loop reads two characters a round; the length is even when it starts.
pub hex_to_string_loop : Bytes → Bytes → Result Bytes
unfolding hex_value
hex_to_string_loop [] output = ok output
hex_to_string_loop (h ∷ []) output = err (invalid_argument (codes "odd length"))
hex_to_string_loop (h ∷ l ∷ input) output = do
  hi ← hex_value h
  lo ← hex_value l
  hex_to_string_loop input (output ++ bit_or (hi * 2 ^ 4) lo % 256 ∷ [])

unfoldable pub hex_to_string : Bytes → Result Bytes
unfolding hex_to_string_loop
hex_to_string input =
    if bit_and (length input) 1 == 1
    then err (invalid_argument (codes "odd length"))
    else hex_to_string_loop input []

is_space : ℕ → Bool
is_space c = c == 32 || (leb 9 c && leb c 13)

hex_digit? : ℕ → Option ℕ
hex_digit? c =
    if leb b'0' c && leb c b'9'
    then some (c - b'0')
    else if leb b'a' c && leb c b'f'
    then some (c - b'a' + 10)
    else if leb b'A' c && leb c b'F'
    then some (c - b'A' + 10)
    else none

-- The digits at the front; a `0x` before them is one digit here, since two characters are all.
strtol_digits : Bytes → ℕ → ℕ
strtol_digits [] n = n
strtol_digits (c ∷ s) n = elim (hex_digit? c) [ none ↦ n | some d ↦ strtol_digits s (n * 16 + d) ]

strtol_sign : Bytes → ℤ
strtol_sign [] = pos 0
strtol_sign (c ∷ s) =
    if c == b'-'
    then pos 0 -ℤ pos (strtol_digits s 0)
    else if c == b'+'
    then pos (strtol_digits s 0)
    else pos (strtol_digits (c ∷ s) 0)

-- Leading white space is skipped, then a sign is read.
strtol16 : Bytes → ℤ
strtol16 [] = pos 0
strtol16 (c ∷ s) = let rest = strtol16 s in if is_space c then rest else strtol_sign (c ∷ s)

-- `(char) n`, as the byte that is pushed.
abbrev to_byte : ℤ → ℕ
to_byte (pos n) = n % 256
to_byte (negsuc n) = 255 - n % 256

unfoldable pub hex_to_bytes : Bytes → Bytes
unfolding strtol16 strtol_sign strtol_digits hex_digit? is_space
hex_to_bytes [] = []
hex_to_bytes (a ∷ []) = to_byte (strtol16 (a ∷ [])) ∷ []
hex_to_bytes (a ∷ b ∷ hex) = to_byte (strtol16 (a ∷ b ∷ [])) ∷ hex_to_bytes hex
