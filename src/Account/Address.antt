-- ===== src/Account/Address.antt =====
-- src/account/address.cpp and include/account/address.h, over the bech32 library.
pub mod RoundTrip
use mx_sdk_cpp.Common.{
  ℕ, true, false, not, Bool, [], Bytes, codes, length, ◌==◌, bytes_eq, Result, ok, length_error,
  invalid_argument, ◌>>=◌, ◌>>◌, guard,
}
use mx_sdk_cpp.Utils.Errors.{error_msg_key_bytes_size, error_msg_bech32}
use mx_sdk_cpp.Utils.ConvertBits.{convert_bits}
use mx_sdk_cpp.Libraries.Bech32.{Bech32Lib}

abbrev pub hrp : Bytes
hrp = codes "erd"

abbrev pub public_key_length : ℕ
public_key_length = 32

pub record Address : Type 0 where
  pub pk : Bytes
  pub bech32_address : Bytes

-- operator==
pub equal : Address → Address → Bool
equal a b = bytes_eq a.pk b.pk

module _ (lib : Bech32Lib) where
  pub compute_bech32_address : Bytes → Result Bytes
  compute_bech32_address pk = do groups ← convert_bits pk 8 5 true; ok (lib.encode hrp groups)

  pub compute_pk_from_bech32 : Bytes → Result Bytes
  compute_pk_from_bech32 text = convert_bits (lib.decode text).1 5 8 false

  -- Address(bytes const &publicKey)
  pub from_public_key : Bytes → Result Address
  unfolding compute_bech32_address
  from_public_key public_key = do
    guard (length public_key == public_key_length) (length_error error_msg_key_bytes_size)
    text ← compute_bech32_address public_key
    ok (record { pk = public_key; bech32_address = text })

  -- Address(std::string const &bech32Address)
  pub from_bech32 : Bytes → Result Address
  unfolding compute_pk_from_bech32
  from_bech32 text = do
    guard (bytes_eq (lib.decode text).0 hrp) (invalid_argument error_msg_bech32)
    key ← compute_pk_from_bech32 text
    ok (record { pk = key; bech32_address = text })
