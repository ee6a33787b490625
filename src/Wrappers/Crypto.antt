-- ===== src/Wrappers/Crypto.antt =====
-- src/wrappers/cryptosignwrapper.cpp and its header.
use mx_sdk_cpp.Common.{ℕ, Bool, Option, none, some, Bytes, codes, Result, ok, err, runtime_error}
use mx_sdk_cpp.Libraries.Crypto.{CryptoLib}

abbrev pub seed_length : ℕ
seed_length = 32

abbrev pub sha3_keccak_bytes : ℕ
sha3_keccak_bytes = 32

-- include/internal/internal.h
pub record KdfParams : Type 0 where
  pub dklen : ℕ
  pub n : ℕ
  pub r : ℕ
  pub p : ℕ
  pub salt : Bytes

abbrev pub error_msg_scryptsy : Bytes
error_msg_scryptsy =
    codes
      "Scrypt function failed. Could not derive keys, possible cause: operating system refused to allocate the amount of requested memory."

abbrev key_or_error : Option Bytes → Result Bytes
key_or_error none = err (runtime_error error_msg_scryptsy)
key_or_error (some key) = ok key

module _ (lib : CryptoLib) where
  unfoldable pub get_signature : Bytes → Bytes → Bytes
  get_signature secret_key message = lib.sign_detached message secret_key

  unfoldable pub get_seed : Bytes → Bytes
  get_seed secret_key = lib.sk_to_seed secret_key

  unfoldable pub get_secret_key : Bytes → Bytes
  get_secret_key seed = lib.seed_keypair seed

  unfoldable pub get_public_key : Bytes → Bytes
  get_public_key secret_key = lib.sk_to_pk secret_key

  unfoldable pub verify : Bytes → Bytes → Bytes → Bool
  verify signature message public_key = lib.verify_detached signature message public_key

  unfoldable pub scrypt : Bytes → KdfParams → Result Bytes
  scrypt password params =
      key_or_error (lib.scrypt password params.salt params.n params.r params.p params.dklen)

  unfoldable pub hmac_sha256 : Bytes → Bytes → Bytes
  hmac_sha256 key cipher_text = lib.hmac_sha256 key cipher_text

  unfoldable pub aes128_ctr_decrypt : Bytes → Bytes → Bytes → Bytes
  aes128_ctr_decrypt key cipher_text iv = lib.aes_ctr_xcrypt key iv cipher_text

  unfoldable pub sha3_keccak : Bytes → Bytes
  sha3_keccak message = lib.sha3 message sha3_keccak_bytes
