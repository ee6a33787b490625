-- ===== src/Tests/Texts.antt =====
-- The encodings, the addresses and the arguments at concrete inputs.
use mx_sdk_cpp.Common.{
  ◌≡◌, refl, true, false, [], ◌∷◌, ◌++◌, Bytes, codes, length, replicate, All, IsByte, ok, err,
  invalid_argument, ◌⊎◌, map, ◌%◌, ◌>>=◌, arith,
}
use mx_sdk_cpp.Utils.Base64
use mx_sdk_cpp.Utils.Base64.Rfc.{rfc4648, encode-eq-rfc4648}
use mx_sdk_cpp.Utils.Base64.RoundTrip.{decode-encode}
use mx_sdk_cpp.Utils.Hex.{string_to_hex, hex_to_string}
use mx_sdk_cpp.Utils.ConvertBits.{convert_bits}
use mx_sdk_cpp.Utils.ConvertBits.Quintets.{quintets, convert_bits-eq-quintets}
use mx_sdk_cpp.Utils.ConvertBits.RoundTrip.{convert_bits-convert_bits}
use mx_sdk_cpp.Account.Address.{Address, hrp, from_public_key, from_bech32}
use mx_sdk_cpp.Account.Address.RoundTrip.{from_bech32_any_length, from_bech32-from_public_key}
use mx_sdk_cpp.Utils.Errors.{error_msg_hex}
use mx_sdk_cpp.Utils.Hex.Errors.{IsHexDigit, to_lower, hex_to_string_cases}
use mx_sdk_cpp.SmartContracts.{ScArguments, as_on_data}
use mx_sdk_cpp.SmartContracts.Fields.{fields, Lacks, IsValid, fields-as_on_data}
use mx_sdk_cpp.Tests.Objects.{bech32, bech32_laws}

abbrev pub word : Bytes
word = codes "antenna" ++ 200 ∷ []

pub word-IsByte : All IsByte word
word-IsByte = ground arith

abbrev pub key : Bytes
key = replicate 32 217

pub key-IsByte : All IsByte key
key-IsByte = ground arith

abbrev short_key : Bytes
short_key = 1 ∷ 2 ∷ 3 ∷ []

short_key-IsByte : All IsByte short_key
short_key-IsByte = ground arith

decode-encode_example : Base64.decode (Base64.encode word) ≡ word
decode-encode_example = decode-encode word word-IsByte

encode-eq-rfc4648_example : Base64.encode word ≡ rfc4648 word
encode-eq-rfc4648_example = encode-eq-rfc4648 word word-IsByte

convert_bits-eq-quintets_example : convert_bits word 8 5 true ≡ ok (quintets word)
convert_bits-eq-quintets_example = convert_bits-eq-quintets word word-IsByte

convert_bits-convert_bits_example :
    (do groups ← convert_bits word 8 5 true; convert_bits groups 5 8 false) ≡ ok word
convert_bits-convert_bits_example = convert_bits-convert_bits word word-IsByte

from_bech32-from_public_key_example :
    (a : Address) × (from_public_key bech32 key ≡ ok a)
    × (a.pk ≡ key)
    × (from_bech32 bech32 a.bech32_address ≡ ok a)
from_bech32-from_public_key_example =
    from_bech32-from_public_key bech32 bech32_laws key key-IsByte refl

from_bech32_any_length_example :
    from_bech32 bech32 (bech32.encode hrp (quintets short_key))
    ≡ ok (record { pk = short_key; bech32_address = bech32.encode hrp (quintets short_key) })
from_bech32_any_length_example =
    from_bech32_any_length bech32 bech32_laws short_key short_key-IsByte (omega arith)

abbrev mixed_hex : Bytes
mixed_hex = codes "4F6b"

mixed_hex-IsByte : All IsByte mixed_hex
mixed_hex-IsByte = ground arith

hex_to_string_cases_example :
    ((s : Bytes) × (hex_to_string mixed_hex ≡ ok s)
      × (length mixed_hex % 2 ≡ 0)
      × All IsHexDigit mixed_hex
      × (string_to_hex s ≡ map to_lower mixed_hex))
    ⊎ (((length mixed_hex % 2 ≡ 1)
          × (hex_to_string mixed_hex ≡ err (invalid_argument (codes "odd length"))))
        ⊎ ((length mixed_hex % 2 ≡ 0)
            × (¬ All IsHexDigit mixed_hex)
            × (hex_to_string mixed_hex ≡ err (invalid_argument error_msg_hex))))
hex_to_string_cases_example = hex_to_string_cases mixed_hex mixed_hex-IsByte

abbrev two_arguments : ScArguments
two_arguments = record { args = codes "0a" ∷ codes "ff01" ∷ [] }

two_arguments-IsValid : IsValid two_arguments
two_arguments-IsValid = ground arith

call_name-Lacks : Lacks (codes "issue")
call_name-Lacks = omega arith

fields-as_on_data_example :
    fields (codes "issue" ++ as_on_data two_arguments) ≡ codes "issue" ∷ two_arguments.args
fields-as_on_data_example =
    fields-as_on_data two_arguments two_arguments-IsValid (codes "issue") call_name-Lacks
