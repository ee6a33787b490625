-- ===== src/Utils/Hex/Errors.antt =====
-- What `hexToString` accepts, and that it keeps the text up to the case of its letters.
use mx_sdk_cpp.Common.{
  ℕ, ◌+◌, ◌*◌, ◌/◌, ◌%◌, ◌^◌, ◌<◌, ◌≡◌, refl, ap, ◌∙◌, Bool, true, false, ◌&&◌, ◌||◌, not, [], ◌∷◌,
  ◌++◌, Bytes, ◌⊎◌, inl, inr, append_assoc, append-nil, IsByte, All, length, map, ltb, leb, ◌==◌,
  ==_iff, if◌then◌else◌, bit_or, Result, Error, ok, err, arith, ◌>>=◌, invalid_argument, codes,
  Bool-cases, subst, same_ok, >>=-eq-ok, All-append, bit_and,
}
use mx_sdk_cpp.Common.Bits.{all_below, all_below_sound, bit_or-shifted}
use mx_sdk_cpp.Utils.Errors.{error_msg_hex}
use mx_sdk_cpp.Utils.Hex.{hex_value, hex_to_string, hex_to_string_loop, string_to_hex}
use mx_sdk_cpp.Utils.Hex.RoundTrip.{digit, pairs, string_to_hex-pairs, and_1}

abbrev pub is_hex_digit : ℕ → Bool
is_hex_digit c =
    (leb b'0' c && leb c b'9') || ((leb b'a' c && leb c b'f') || (leb b'A' c && leb c b'F'))

abbrev pub IsHexDigit : ℕ → Type 0
IsHexDigit c = is_hex_digit c ≡ true

-- The small letter of a capital hexadecimal digit.
abbrev pub to_lower : ℕ → ℕ
to_lower c = if leb b'A' c && leb c b'F' then c + 32 else c

abbrev agrees : ℕ → Result ℕ → Bool
agrees c (ok v) = is_hex_digit c && (ltb v 16 && (digit v == to_lower c))
agrees c (err e) = not (is_hex_digit c)

all_agree : all_below 256 (λ c. agrees c (hex_value c)) ≡ true
unfolding all_below hex_value
all_agree = refl

only_error : (b : Bool) (x e : Error) (v : ℕ) → (if b then err x else ok v) ≡ err e → e ≡ x
only_error true x e v h = cc
only_error false x e v h = cc

hex_value-err : (c : ℕ) (e : Error) → hex_value c ≡ err e → e ≡ invalid_argument error_msg_hex
unfolding hex_value
hex_value-err c e h = only_error _ _ e _ h

abbrev HasValue : ℕ → Result ℕ → Type 0
HasValue c r =
    ((v : ℕ) × (r ≡ ok v) × (v < 16) × (digit v ≡ to_lower c) × IsHexDigit c)
    ⊎ ((r ≡ err (invalid_argument error_msg_hex)) × (is_hex_digit c ≡ false))

agrees→HasValue :
    (c : ℕ) (r : Result ℕ)
    → ((e : Error) → r ≡ err e → e ≡ invalid_argument error_msg_hex)
    → agrees c r ≡ true
    → HasValue c r
agrees→HasValue c (ok v) only h = inl (v, refl, ground arith, ground arith, ground arith)
agrees→HasValue c (err e) only h = inr (ap err (only e refl), ground arith)

hex_value-HasValue : (c : ℕ) → c < 256 → HasValue c (hex_value c)
hex_value-HasValue c h =
    agrees→HasValue c (hex_value c) (hex_value-err c)
      (all_below_sound 256 (λ x. agrees x (hex_value x)) c all_agree h)

-- The loop over a text of even length: it succeeds on digits only, and the bytes spell the text.
abbrev Reads : Bytes → Bytes → Result Bytes → Type 0
Reads h out r =
    ((s : Bytes) × (r ≡ ok (out ++ s)) × All IsHexDigit h × (pairs s ≡ map to_lower h))
    ⊎ ((r ≡ err (invalid_argument error_msg_hex)) × ¬ All IsHexDigit h)

pair_Reads :
    (x y : ℕ) (h out : Bytes) (rx ry : Result ℕ)
    → HasValue x rx
    → HasValue y ry
    → ((out' : Bytes) → Reads h out' (hex_to_string_loop h out'))
    → Reads
        (x ∷ y ∷ h)
        out
        (rx >>= λ hi. ry >>= λ lo. hex_to_string_loop h (out ++ bit_or (hi * 2 ^ 4) lo % 256 ∷ []))
unfolding pairs
pair_Reads x y h out rx ry (inr (ex, nx)) hy ih = inr (rw ex, λ (hx, _). cc)
pair_Reads x y h out rx ry (inl (v, ex, lv, dv, hx)) (inr (ey, ny)) ih =
    inr (rw (ex, ey), λ (_, (hy, _)). cc)
pair_Reads x y h out rx ry (inl (v, ex, lv, dv, hx)) (inl (w, ey, lw, dw, hy)) ih =
    let joined : bit_or (v * 2 ^ 4) w % 256 ≡ v * 16 + w =
      rw (bit_or-shifted 4 v w lw) (omega arith) in
    rw (ex, ey, joined) (after (ih (out ++ (v * 16 + w) ∷ [])))
  where
    high : digit ((v * 16 + w) / 16) ≡ to_lower x
    high = let e : (v * 16 + w) / 16 ≡ v = omega arith in rw e dv

    low : digit ((v * 16 + w) % 16) ≡ to_lower y
    low = let e : (v * 16 + w) % 16 ≡ w = omega arith in rw e dw

    after :
        Reads h (out ++ (v * 16 + w) ∷ []) (hex_to_string_loop h (out ++ (v * 16 + w) ∷ []))
        → Reads (x ∷ y ∷ h) out (hex_to_string_loop h (out ++ (v * 16 + w) ∷ []))
    after (inl (s, e, hs, ps)) =
        inl ((v * 16 + w) ∷ s, e ∙ ap ok (append_assoc out _ s), (hx, (hy, hs)), cc (high, low, ps))
    after (inr (e, n)) = inr (e, λ (_, (_, hs)). n hs)

hex_to_string_loop-Reads :
    (h out : Bytes) → All IsByte h → length h % 2 ≡ 0 → Reads h out (hex_to_string_loop h out)
unfolding hex_to_string_loop pairs
hex_to_string_loop-Reads [] out b e = inl ([], rw append-nil, tt, refl)
hex_to_string_loop-Reads (x ∷ []) out b e = absurd (omega arith)
hex_to_string_loop-Reads (x ∷ y ∷ h) out (bx, (by, bh)) e =
    pair_Reads x y h out _ _ (hex_value-HasValue x bx) (hex_value-HasValue y by)
      (λ out'. hex_to_string_loop-Reads h out' bh (omega arith))

-- A text of bytes is accepted exactly where its length is even and it has hexadecimal digits only,
-- and the result is then the string whose hexadecimal text is the input in small letters. An odd
-- length is refused as such, and otherwise a character that is no digit with the format error.
pub hex_to_string_cases :
    (h : Bytes)
    → All IsByte h
    → ((s : Bytes) × (hex_to_string h ≡ ok s)
        × (length h % 2 ≡ 0)
        × All IsHexDigit h
        × (string_to_hex s ≡ map to_lower h))
      ⊎ (((length h % 2 ≡ 1) × (hex_to_string h ≡ err (invalid_argument (codes "odd length"))))
          ⊎ ((length h % 2 ≡ 0)
              × (¬ All IsHexDigit h)
              × (hex_to_string h ≡ err (invalid_argument error_msg_hex))))
unfolding hex_to_string
hex_to_string_cases h b = elim (Bool-cases (length h % 2 == 1)) [
  | inl odd ↦
      let one : length h % 2 ≡ 1 = (==_iff _ 1).0 odd in inr (inl (one, rw (and_1 (length h), one)))
  | inr even ↦
      let none_left : length h % 2 ≡ 0 = ground arith in
      elim (hex_to_string_loop-Reads h [] b none_left) [
        | inl (s, e, hs, ps) ↦
            inl (s, rw (and_1 (length h), none_left) e, none_left, hs, rw string_to_hex-pairs ps)
        | inr (e, n) ↦ inr (inr (none_left, n, rw (and_1 (length h), none_left) e))
      ]
]

hex_to_string_loop-IsByte :
    (h out s : Bytes) → All IsByte out → hex_to_string_loop h out ≡ ok s → All IsByte s
unfolding hex_to_string_loop
hex_to_string_loop-IsByte [] out s bytes done = subst (All IsByte) (same_ok done) bytes
hex_to_string_loop-IsByte (x ∷ []) out s bytes done = absurd cc
hex_to_string_loop-IsByte (x ∷ y ∷ h) out s bytes done =
    let (hi, _, rest) = >>=-eq-ok (hex_value x) _ done in
    let (lo, _, last) = >>=-eq-ok (hex_value y) _ rest in
    hex_to_string_loop-IsByte h (out ++ bit_or (hi * 2 ^ 4) lo % 256 ∷ []) s
      (All-append IsByte out (bit_or (hi * 2 ^ 4) lo % 256 ∷ []) bytes (omega arith, tt)) last

-- What is returned is made of bytes, whatever the text is.
pub hex_to_string-IsByte : (h s : Bytes) → hex_to_string h ≡ ok s → All IsByte s
unfolding hex_to_string
hex_to_string-IsByte h s =
    elim (bit_and (length h) 1 == 1)
      as (λ b.
        (if b then err (invalid_argument (codes "odd length")) else hex_to_string_loop h []) ≡ ok s
        → All IsByte s) [ true ↦ λ done. absurd cc | false ↦ hex_to_string_loop-IsByte h [] s tt ]
