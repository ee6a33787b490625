-- ===== src/FileHandler/Pem/Plain.antt =====
-- The texts of the encodings have neither a newline nor a dash.
use mx_sdk_cpp.Common.{
  ℕ, ◌*◌, ◌+◌, ◌/◌, ◌%◌, ◌<◌, ◌≡◌, refl, Bool, true, not, ◌&&◌, [], ◌∷◌, Bytes, ◌==◌, ltb, All,
  IsByte, arith,
}
use mx_sdk_cpp.Common.Bits.{all_below, all_below_sound}
use mx_sdk_cpp.Common.Texts.{newline}
use mx_sdk_cpp.Utils.Base64.Rfc.{symbol, rfc4648}
use mx_sdk_cpp.Utils.Hex.{string_to_hex}
use mx_sdk_cpp.Utils.Hex.RoundTrip.{digit, pairs, string_to_hex-pairs}

-- Neither a newline nor a dash.
abbrev pub is_plain : ℕ → Bool
is_plain c = not (c == newline) && not (c == b'-')

abbrev pub IsPlain : ℕ → Type 0
IsPlain c = is_plain c ≡ true

symbols_plain : all_below 64 (λ v. is_plain (symbol v)) ≡ true
unfolding all_below
symbols_plain = refl

symbol-IsPlain : (v : ℕ) → v < 64 → IsPlain (symbol v)
symbol-IsPlain v h = all_below_sound 64 (λ x. is_plain (symbol x)) v symbols_plain h

pub rfc4648-IsPlain : (s : Bytes) → All IsByte s → All IsPlain (rfc4648 s)
unfolding rfc4648
rfc4648-IsPlain [] h = tt
rfc4648-IsPlain (a ∷ []) (ha, _) = (
  symbol-IsPlain (a / 4) (omega arith),
  (symbol-IsPlain (a % 4 * 16) (omega arith), (refl, (refl, tt))),
)
rfc4648-IsPlain (a ∷ b ∷ []) (ha, (hb, _)) = (
  symbol-IsPlain (a / 4) (omega arith),
  (
    symbol-IsPlain (a % 4 * 16 + b / 16) (omega arith),
    (symbol-IsPlain (b % 16 * 4) (omega arith), (refl, tt)),
  ),
)
rfc4648-IsPlain (a ∷ b ∷ c ∷ s) (ha, (hb, (hc, h))) = (
  symbol-IsPlain (a / 4) (omega arith),
  (
    symbol-IsPlain (a % 4 * 16 + b / 16) (omega arith),
    (
      symbol-IsPlain (b % 16 * 4 + c / 64) (omega arith),
      (symbol-IsPlain (c % 64) (omega arith), rfc4648-IsPlain s h),
    ),
  ),
)

digits_bytes : all_below 16 (λ v. ltb (digit v) 256) ≡ true
unfolding all_below
digits_bytes = refl

digit-IsByte : (v : ℕ) → v < 16 → IsByte (digit v)
digit-IsByte v h =
    let small = all_below_sound 16 (λ x. ltb (digit x) 256) v digits_bytes h in ground arith

pairs-IsByte : (s : Bytes) → All IsByte s → All IsByte (pairs s)
unfolding pairs
pairs-IsByte [] h = tt
pairs-IsByte (c ∷ s) (hc, h) =
    (digit-IsByte _ (omega arith), (digit-IsByte _ (omega arith), pairs-IsByte s h))

pub string_to_hex-IsByte : (s : Bytes) → All IsByte s → All IsByte (string_to_hex s)
string_to_hex-IsByte s h = rw (string_to_hex-pairs s) (pairs-IsByte s h)
