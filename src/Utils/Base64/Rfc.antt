-- ===== src/Utils/Base64/Rfc.antt =====
-- `util::base64::encode` against the base64 of RFC 4648, which regroups 24 bits at a time.
use mx_sdk_cpp.Common.{
  ℕ, zero, suc, ◌+◌, ◌*◌, ◌/◌, ◌%◌, ◌^◌, ◌<◌, ◌≡◌, refl, ◌∙◌, [], ◌∷◌, ◌++◌, append_assoc,
  append-nil, Bytes, IsByte, All, length, length-append, get_or, bit_and, arith,
}
use mx_sdk_cpp.Common.Bits.{and_63}
use mx_sdk_cpp.Common.Int.{negsuc}
use mx_sdk_cpp.Utils.Base64.{alphabet, shl32, shr32, pad, encode_loop, encode}

abbrev pub symbol : ℕ → ℕ
symbol v = get_or alphabet v 0

-- Three bytes are four symbols; a rest of one or two bytes is filled up with zero bits and `=`.
unfoldable pub rfc4648 : Bytes → Bytes
rfc4648 [] = []
rfc4648 (a ∷ []) = symbol (a / 4) ∷ symbol (a % 4 * 16) ∷ b'=' ∷ b'=' ∷ []
rfc4648 (a ∷ b ∷ []) =
    symbol (a / 4) ∷ symbol (a % 4 * 16 + b / 16) ∷ symbol (b % 16 * 4) ∷ b'=' ∷ []
rfc4648 (a ∷ b ∷ c ∷ s) =
    symbol (a / 4)
    ∷ symbol (a % 4 * 16 + b / 16)
    ∷ symbol (b % 16 * 4 + c / 64)
    ∷ symbol (c % 64)
    ∷ rfc4648 s

-- val = (val << 8) + c
abbrev add_byte : ℕ → ℕ → ℕ
add_byte v c = (shl32 v 8 + c) % 2 ^ 32

module _ (v a b c : ℕ) (ha : a < 256) (hb : b < 256) (hc : c < 256) where
  first_symbol : bit_and (shr32 (add_byte v a) 2) 0x3F ≡ a / 4
  first_symbol = rw and_63 (ground arith)

  second_symbol : bit_and (shr32 (add_byte (add_byte v a) b) 4) 0x3F ≡ a % 4 * 16 + b / 16
  second_symbol = rw and_63 (ground arith)

  third_symbol :
      bit_and (shr32 (add_byte (add_byte (add_byte v a) b) c) 6) 0x3F ≡ b % 16 * 4 + c / 64
  third_symbol = rw and_63 (ground arith)

  fourth_symbol : bit_and (shr32 (add_byte (add_byte (add_byte v a) b) c) 0) 0x3F ≡ c % 64
  fourth_symbol = rw and_63 (ground arith)

  one_left : bit_and (shr32 (shl32 (add_byte v a) 8) 4) 0x3F ≡ a % 4 * 16
  one_left = rw and_63 (ground arith)

  two_left : bit_and (shr32 (shl32 (add_byte (add_byte v a) b) 8) 6) 0x3F ≡ b % 16 * 4
  two_left = rw and_63 (ground arith)

  -- Three rounds of the loop.
  three_bytes :
      (s out : Bytes)
      → encode_loop (a ∷ b ∷ c ∷ s) out v (negsuc 5)
        ≡ encode_loop s
            ((((out ++ symbol (a / 4) ∷ []) ++ symbol (a % 4 * 16 + b / 16) ∷ [])
                ++ symbol (b % 16 * 4 + c / 64) ∷ [])
              ++ symbol (c % 64) ∷ [])
            (add_byte (add_byte (add_byte v a) b) c)
            (negsuc 5)
  unfolding encode_loop
  three_bytes s out = rw (first_symbol, second_symbol, third_symbol, fourth_symbol)

  one_byte :
      (out : Bytes)
      → encode_loop (a ∷ []) out v (negsuc 5)
        ≡ pad 4 ((out ++ symbol (a / 4) ∷ []) ++ symbol (a % 4 * 16) ∷ [])
  unfolding encode_loop
  one_byte out = rw (first_symbol, one_left)

  two_bytes :
      (out : Bytes)
      → encode_loop (a ∷ b ∷ []) out v (negsuc 5)
        ≡ pad 4 (
            ((out ++ symbol (a / 4) ∷ []) ++ symbol (a % 4 * 16 + b / 16) ∷ [])
            ++ symbol (b % 16 * 4) ∷ [])
  unfolding encode_loop
  two_bytes out = rw (first_symbol, second_symbol, two_left)

pad_stop : (fuel : ℕ) (out : Bytes) → length out % 4 ≡ 0 → pad fuel out ≡ out
unfolding pad
pad_stop zero out h = refl
pad_stop (suc fuel) out h = rw (h, pad)

pad_more :
    (fuel : ℕ) (out : Bytes) → 0 < length out % 4 → pad (suc fuel) out ≡ pad fuel (out ++ b'=' ∷ [])
unfolding pad
pad_more fuel out h = ground arith

-- The rounds of the padding loop that a rest of one or two bytes needs.
pad_one : (out : Bytes) → length out % 4 ≡ 3 → pad 4 out ≡ out ++ b'=' ∷ []
pad_one out h =
    pad_more 3 out (omega arith)
    ∙ pad_stop 3 (out ++ b'=' ∷ []) (omega (arith, length-append out (b'=' ∷ [])))

pad_two : (out : Bytes) → length out % 4 ≡ 2 → pad 4 out ≡ (out ++ b'=' ∷ []) ++ b'=' ∷ []
pad_two out h =
    let out' = out ++ b'=' ∷ [] in
    let longer : length out' ≡ length out + 1 = length-append out (b'=' ∷ []) in
    pad_more 3 out (omega arith)
    ∙ pad_more 2 out' (omega arith)
    ∙ pad_stop 2 (out' ++ b'=' ∷ []) (omega (arith, length-append out' (b'=' ∷ [])))

-- In base64 the length of the symbols before a group of three bytes is a multiple of four.
encode_loop-rfc4648 :
    (s out : Bytes) (v : ℕ)
    → All IsByte s
    → length out % 4 ≡ 0
    → encode_loop s out v (negsuc 5) ≡ out ++ rfc4648 s
unfolding rfc4648
encode_loop-rfc4648 [] out v h e = rw append-nil (unfold encode_loop in pad_stop 4 out e)
encode_loop-rfc4648 (a ∷ []) out v (ha, _) e =
    one_byte v a 0 0 ha (omega arith) (omega arith) out
    ∙ pad_two _ (rw (length-append, length-append) (omega arith))
    ∙ simp append_assoc
encode_loop-rfc4648 (a ∷ b ∷ []) out v (ha, (hb, _)) e =
    two_bytes v a b 0 ha hb (omega arith) out
    ∙ pad_one _ (rw (length-append, length-append, length-append) (omega arith))
    ∙ simp append_assoc
encode_loop-rfc4648 (a ∷ b ∷ c ∷ s) out v (ha, (hb, (hc, hs))) e =
    three_bytes v a b c ha hb hc s out
    ∙ encode_loop-rfc4648 s _ _ hs
        (rw (length-append, length-append, length-append, length-append) (omega arith))
    ∙ simp append_assoc

-- On every byte string `encode` returns the base64 text of RFC 4648, padding included.
pub encode-eq-rfc4648 : (s : Bytes) → All IsByte s → encode s ≡ rfc4648 s
unfolding encode
encode-eq-rfc4648 s h = encode_loop-rfc4648 s [] 0 h refl
