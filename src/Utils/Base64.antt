-- ===== src/Utils/Base64.antt =====
-- src/utils/base64.cpp. A C++ `int` is its bit pattern, a number below 2 ^ 32; the shifts of the
-- signed value keep the low 32 bits, and `>>` copies the sign bit.
pub mod Rfc
pub mod RoundTrip
use mx_sdk_cpp.Common.{
  ℕ, zero, suc, ◌+◌, ◌-◌, ◌*◌, ◌/◌, ◌%◌, ◌^◌, ◌≡◌, refl, Bool, true, false, List, [], ◌∷◌, ◌++◌,
  Bytes, codes, length, get_or, set, replicate, ltb, ◌==◌, if◌then◌else◌, bit_and,
}
use mx_sdk_cpp.Common.Int.{ℤ, pos, negsuc, ◌+ℤ◌, ◌-ℤ◌, ltb_ℤ, is_negative, eq_ℤ, pos_part}

abbrev pub alphabet : Bytes
alphabet = codes "ABCDEFGHIJKLMNOPQRSTUVWXYZabcdefghijklmnopqrstuvwxyz0123456789+/"

-- val << k
abbrev shl32 : ℕ → ℕ → ℕ
shl32 w k = w * 2 ^ k % 2 ^ 32

-- val >> k
abbrev shr32 : ℕ → ℕ → ℕ
shr32 w k = if ltb w (2 ^ 31) then w / 2 ^ k else (w + (2 ^ k - 1) * 2 ^ 32) / 2 ^ k

-- `out.push_back(alphabet[v & 0x3F])`
abbrev push_symbol : Bytes → ℕ → Bytes
push_symbol out v = out ++ get_or alphabet (bit_and v 0x3F) 0 ∷ []

-- `while (valb >= 0) { out.push_back(…); valb -= 6; }`
emit : ℕ → Bytes → ℕ → ℤ → Bytes × ℤ
emit zero out val valb = (out, valb)
emit (suc fuel) out val (pos valb) =
    emit fuel (push_symbol out (shr32 val valb)) val (pos valb -ℤ pos 6)
emit (suc fuel) out val (negsuc n) = (out, negsuc n)

-- `while (out.size() % 4) out.push_back('=');`
pad : ℕ → Bytes → Bytes
pad zero out = out
pad (suc fuel) out = elim (length out % 4 == 0) [ true ↦ out | false ↦ pad fuel (out ++ b'=' ∷ []) ]

encode_end : Bytes → ℕ → ℤ → Bytes
unfolding pad
encode_end out val valb =
    if ltb_ℤ (negsuc 5) valb
    then pad 4 (push_symbol out (shr32 (shl32 val 8) (pos_part (valb +ℤ pos 8))))
    else pad 4 out

encode_loop : Bytes → Bytes → ℕ → ℤ → Bytes
unfolding emit encode_end
encode_loop [] out val valb = encode_end out val valb
encode_loop (c ∷ s) out val valb =
    let val' = (shl32 val 8 + c) % 2 ^ 32 in
    let (out', valb') = emit (suc (pos_part (valb +ℤ pos 8))) out val' (valb +ℤ pos 8) in
    encode_loop s out' val' valb'

unfoldable pub encode : Bytes → Bytes
unfolding encode_loop
encode s = encode_loop s [] 0 (negsuc 5)

-- The body of the loop that fills `T`, for the `n` symbols still to come.
fill : ℕ → ℕ → List ℤ → List ℤ
fill zero i t = t
fill (suc n) i t = fill n (i + 1) (set t (get_or alphabet i 0) (pos i))

table : List ℤ
unfolding fill
table = fill 64 0 (replicate 256 (negsuc 0))

-- A byte is always inside the table.
abbrev lookup_symbol : ℕ → ℤ
unfolding table
lookup_symbol c = get_or table c (negsuc 0)

decode_loop : Bytes → Bytes → ℕ → ℤ → Bytes
unfolding table
decode_loop [] out val valb = out
decode_loop (c ∷ s) out val valb =
    let t = lookup_symbol c in
    let val' = (shl32 val 6 + pos_part t) % 2 ^ 32 in
    let valb' = valb +ℤ pos 6 in
    let rest =
      if is_negative valb'
      then decode_loop s out val' valb'
      else decode_loop s (out ++ bit_and (shr32 val' (pos_part valb')) 0xFF ∷ []) val'
          (valb' -ℤ pos 8) in
    if eq_ℤ t (negsuc 0) then out else rest

unfoldable pub decode : Bytes → Bytes
unfolding decode_loop
decode s = decode_loop s [] 0 (negsuc 7)
