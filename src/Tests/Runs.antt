-- ===== src/Tests/Runs.antt =====
-- Runs of the encodings. A sign, a blank or another character in a pair is taken by `strtol`, so
-- `hexToBytes` refuses no text.
use mx_sdk_cpp.Common.{◌≡◌, refl, true, [], ◌∷◌, codes, ok}
use mx_sdk_cpp.Utils.Base64.{encode, decode}
use mx_sdk_cpp.Utils.Hex.{string_to_hex, hex_to_string, hex_to_bytes}
use mx_sdk_cpp.Utils.ConvertBits.{convert_bits}

encode_runs : encode (codes "Many") ≡ codes "TWFueQ=="
unfolding encode
encode_runs = refl

decode_runs : decode (codes "TWFueQ==") ≡ codes "Many"
unfolding decode
decode_runs = refl

regrouped : convert_bits (0xff ∷ 0x01 ∷ []) 8 5 true ≡ ok (31 ∷ 28 ∷ 0 ∷ 16 ∷ [])
unfolding convert_bits
regrouped = refl

to_hex_runs : string_to_hex (codes "Hello World") ≡ codes "48656c6c6f20576f726c64"
unfolding string_to_hex
to_hex_runs = refl

to_bytes_runs : hex_to_bytes (codes "0A11f4C") ≡ 10 ∷ 17 ∷ 244 ∷ 12 ∷ []
unfolding hex_to_bytes
to_bytes_runs = refl

signed_pair : hex_to_bytes (codes "-5 7x1") ≡ 251 ∷ 7 ∷ 0 ∷ []
unfolding hex_to_bytes
signed_pair = refl

to_string_runs : hex_to_string (codes "4F6b") ≡ ok (codes "Ok")
unfolding hex_to_string
to_string_runs = refl
