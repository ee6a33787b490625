-- ===== src/Utils/Base64/RoundTrip.antt =====
-- `util::base64::decode` undoes `util::base64::encode`.
use mx_sdk_cpp.Common.{
  ℕ, ◌+◌, ◌*◌, ◌/◌, ◌%◌, ◌^◌, ◌<◌, ◌≡◌, refl, ◌∙◌, [], ◌∷◌, ◌++◌, append_assoc, append-nil, true,
  Bytes, IsByte, All, get_or, bit_and, arith,
}
use mx_sdk_cpp.Common.Bits.{and_255, all_below, all_below_sound}
use mx_sdk_cpp.Common.Int.{ℤ, pos, negsuc, eq_ℤ}
use mx_sdk_cpp.Utils.Base64.{shl32, shr32, table, decode_loop, decode, encode}
use mx_sdk_cpp.Utils.Base64.Rfc.{symbol, rfc4648, encode-eq-rfc4648}

eq_ℤ→eq : (a b : ℤ) → eq_ℤ a b ≡ true → a ≡ b
eq_ℤ→eq (pos a) b h = ground arith
eq_ℤ→eq (negsuc a) b h = ground arith

entries : all_below 64 (λ v. eq_ℤ (get_or table (symbol v) (negsuc 0)) (pos v)) ≡ true
unfolding all_below table
entries = refl

-- The table inverts the alphabet.
table-symbol : (v : ℕ) → v < 64 → get_or table (symbol v) (negsuc 0) ≡ pos v
table-symbol v h = eq_ℤ→eq _ _ (all_below_sound 64 _ v entries h)

-- val = (val << 6) + t
abbrev add_symbol : ℕ → ℕ → ℕ
add_symbol v t = (shl32 v 6 + t) % 2 ^ 32

-- One round, at each of the four values of `valb` that occur.
module _ (s out : Bytes) (v t : ℕ) (h : t < 64) where
  round_8 :
      decode_loop (symbol t ∷ s) out v (negsuc 7) ≡ decode_loop s out (add_symbol v t) (negsuc 1)
  unfolding decode_loop
  round_8 = rw (table-symbol t h)

  round_2 :
      decode_loop (symbol t ∷ s) out v (negsuc 1)
      ≡ decode_loop s
          (out ++ bit_and (shr32 (add_symbol v t) 4) 0xFF ∷ [])
          (add_symbol v t)
          (negsuc 3)
  unfolding decode_loop
  round_2 = rw (table-symbol t h)

  round_4 :
      decode_loop (symbol t ∷ s) out v (negsuc 3)
      ≡ decode_loop s
          (out ++ bit_and (shr32 (add_symbol v t) 2) 0xFF ∷ [])
          (add_symbol v t)
          (negsuc 5)
  unfolding decode_loop
  round_4 = rw (table-symbol t h)

  round_6 :
      decode_loop (symbol t ∷ s) out v (negsuc 5)
      ≡ decode_loop s
          (out ++ bit_and (shr32 (add_symbol v t) 0) 0xFF ∷ [])
          (add_symbol v t)
          (negsuc 7)
  unfolding decode_loop
  round_6 = rw (table-symbol t h)

decode_stop : (s out : Bytes) (v : ℕ) (valb : ℤ) → decode_loop (b'=' ∷ s) out v valb ≡ out
unfolding decode_loop
decode_stop s out v valb = refl

module _ (v w x y z : ℕ) (hw : w < 64) (hx : x < 64) (hy : y < 64) (hz : z < 64) where
  first_byte : bit_and (shr32 (add_symbol (add_symbol v w) x) 4) 0xFF ≡ w * 4 + x / 16
  first_byte = rw and_255 (ground arith)

  second_byte :
      bit_and (shr32 (add_symbol (add_symbol (add_symbol v w) x) y) 2) 0xFF ≡ x % 16 * 16 + y / 4
  second_byte = rw and_255 (ground arith)

  third_byte :
      bit_and (shr32 (add_symbol (add_symbol (add_symbol (add_symbol v w) x) y) z) 0) 0xFF
      ≡ y % 4 * 64 + z
  third_byte = rw and_255 (ground arith)

  -- The rounds over two, three and four symbols.
  two_symbols :
      (s out : Bytes)
      → decode_loop (symbol w ∷ symbol x ∷ b'=' ∷ s) out v (negsuc 7) ≡ out ++ (w * 4 + x / 16) ∷ []
  two_symbols s out = rw (round_8 _ _ _ _ hw, round_2 _ _ _ _ hx, decode_stop, first_byte)

  three_symbols :
      (s out : Bytes)
      → decode_loop (symbol w ∷ symbol x ∷ symbol y ∷ b'=' ∷ s) out v (negsuc 7)
        ≡ (out ++ (w * 4 + x / 16) ∷ []) ++ (x % 16 * 16 + y / 4) ∷ []
  three_symbols s out = rw (
    round_8 _ _ _ _ hw,
    round_2 _ _ _ _ hx,
    round_4 _ _ _ _ hy,
    decode_stop,
    first_byte,
    second_byte,
  )

  four_symbols :
      (s out : Bytes)
      → decode_loop (symbol w ∷ symbol x ∷ symbol y ∷ symbol z ∷ s) out v (negsuc 7)
        ≡ decode_loop s
            (((out ++ (w * 4 + x / 16) ∷ []) ++ (x % 16 * 16 + y / 4) ∷ [])
              ++ (y % 4 * 64 + z) ∷ [])
            (add_symbol (add_symbol (add_symbol (add_symbol v w) x) y) z)
            (negsuc 7)
  four_symbols s out = rw (
    round_8 _ _ _ _ hw,
    round_2 _ _ _ _ hx,
    round_4 _ _ _ _ hy,
    round_6 _ _ _ _ hz,
    first_byte,
    second_byte,
    third_byte,
  )

decode_loop-rfc4648 :
    (s out : Bytes) (v : ℕ) → All IsByte s → decode_loop (rfc4648 s) out v (negsuc 7) ≡ out ++ s
unfolding rfc4648
decode_loop-rfc4648 [] out v h = rw append-nil (unfold decode_loop in refl)
decode_loop-rfc4648 (a ∷ []) out v (ha, _) =
    let first : a / 4 * 4 + a % 4 * 16 / 16 ≡ a = omega arith in
    two_symbols v (a / 4) (a % 4 * 16) 0 0 (omega arith) (omega arith) (omega arith) (omega arith) _
      out
    ∙ rw first
decode_loop-rfc4648 (a ∷ b ∷ []) out v (ha, (hb, _)) =
    let x = a % 4 * 16 + b / 16 in
    let first : a / 4 * 4 + x / 16 ≡ a = omega arith in
    let second : x % 16 * 16 + b % 16 * 4 / 4 ≡ b = omega arith in
    three_symbols v (a / 4) x (b % 16 * 4) 0 (omega arith) (omega arith) (omega arith) (omega arith)
      _ out
    ∙ rw (first, second) (append_assoc out _ _)
decode_loop-rfc4648 (a ∷ b ∷ c ∷ s) out v (ha, (hb, (hc, hs))) =
    let x = a % 4 * 16 + b / 16 in
    let y = b % 16 * 4 + c / 64 in
    let first : a / 4 * 4 + x / 16 ≡ a = omega arith in
    let second : x % 16 * 16 + y / 4 ≡ b = omega arith in
    let third : y % 4 * 64 + c % 64 ≡ c = omega arith in
    four_symbols v (a / 4) x y (c % 64) (omega arith) (omega arith) (omega arith) (omega arith) _
      out
    ∙ decode_loop-rfc4648 s _ _ hs
    ∙ rw (first, second, third) (simp append_assoc)

-- Decoding the base64 text of a byte string gives the string back.
pub decode-encode : (s : Bytes) → All IsByte s → decode (encode s) ≡ s
unfolding decode
decode-encode s h = rw (encode-eq-rfc4648 s h) (decode_loop-rfc4648 s [] 0 h)
