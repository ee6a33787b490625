-- ===== src/FileHandler/KeyFile.antt =====
-- src/filehandler/keyfilereader.cpp, include/filehandler/keyfilereader.h and the key file part of
-- include/internal/internal.h.
pub mod Content
pub mod Derive
pub mod Opened
use mx_sdk_cpp.Common.{
  ℕ, ◌-◌, ◌/◌, Bool, List, [], ◌∷◌, ◌++◌, Bytes, codes, length, take, drop, bytes_eq, Result, ok,
  err, invalid_argument, runtime_error, ◌>>=◌, ◌>>◌, guard, rethrow,
}
use mx_sdk_cpp.Utils.Hex.{hex_to_string}
use mx_sdk_cpp.Utils.Errors.{
  error_msg_key_file, error_msg_mac, error_msg_key_file_version,
  error_msg_key_file_derivation_function, error_msg_key_file_cipher,
}
use mx_sdk_cpp.Libraries.Bech32.{Bech32Lib}
use mx_sdk_cpp.Libraries.Crypto.{CryptoLib}
use mx_sdk_cpp.Libraries.JsonTree.{JsonTreeLib}
use mx_sdk_cpp.Wrappers.JsonPaths.{text_at, number_at}
use mx_sdk_cpp.Wrappers.Crypto.{KdfParams, scrypt, hmac_sha256, aes128_ctr_decrypt}
use mx_sdk_cpp.Wrappers.Crypto
use mx_sdk_cpp.Account.Address.{Address, from_public_key}
use mx_sdk_cpp.FileHandler.{Files, stream, check_file, check_param, check_number}

abbrev pub key_file_version : ℕ
key_file_version = 4

abbrev pub key_file_derivation_function : Bytes
key_file_derivation_function = codes "scrypt"

abbrev pub key_file_cipher_algorithm : Bytes
key_file_cipher_algorithm = codes "aes-128-ctr"

-- The member `id` is never read or written.
pub record EncryptedData : Type 0 where
  pub version : ℕ
  pub kdf : Bytes
  pub kdf_params : KdfParams
  pub iv : Bytes
  pub cipher : Bytes
  pub cipher_text : Bytes
  pub mac : Bytes

-- m_secretKey
pub record KeyFileReader : Type 0 where
  pub secret_key : Bytes

module _ (json : JsonTreeLib) where
  unfoldable pub bytes_at : json.Json → List Bytes → Result Bytes
  bytes_at j path = do value ← text_at json j path; hex_to_string value

  -- The part of getFileContent that reads `kdfParams`.
  unfoldable pub read_kdf_params : json.Json → Result KdfParams
  read_kdf_params j = do
    dklen ← number_at json j (codes "crypto" ∷ codes "kdfparams" ∷ codes "dklen" ∷ [])
    n ← number_at json j (codes "crypto" ∷ codes "kdfparams" ∷ codes "n" ∷ [])
    r ← number_at json j (codes "crypto" ∷ codes "kdfparams" ∷ codes "r" ∷ [])
    p ← number_at json j (codes "crypto" ∷ codes "kdfparams" ∷ codes "p" ∷ [])
    salt ← bytes_at j (codes "crypto" ∷ codes "kdfparams" ∷ codes "salt" ∷ [])
    ok (record { dklen = dklen; n = n; r = r; p = p; salt = salt })

  -- The `try` block of getFileContent, of the text in the file.
  unfoldable pub read_content : Bytes → Result EncryptedData
  unfolding read_kdf_params
  read_content content = do
    j ← json.parse content
    version ← number_at json j (codes "version" ∷ [])
    kdf ← text_at json j (codes "crypto" ∷ codes "kdf" ∷ [])
    cipher ← text_at json j (codes "crypto" ∷ codes "cipher" ∷ [])
    kdf_params ← read_kdf_params j
    iv ← bytes_at j (codes "crypto" ∷ codes "cipherparams" ∷ codes "iv" ∷ [])
    cipher_text ← bytes_at j (codes "crypto" ∷ codes "ciphertext" ∷ [])
    mac ← bytes_at j (codes "crypto" ∷ codes "mac" ∷ [])
    ok (record {
      version = version;
      kdf = kdf;
      kdf_params = kdf_params;
      iv = iv;
      cipher = cipher;
      cipher_text = cipher_text;
      mac = mac;
    })

  -- getFileContent
  unfoldable pub file_content : Bytes → Result EncryptedData
  unfolding read_content
  file_content content = rethrow (read_content content) (λ e. invalid_argument error_msg_key_file)

-- deriveSecretKey
unfoldable pub derive_secret_key : CryptoLib → EncryptedData → Bytes → Result Bytes
derive_secret_key crypto encrypted password = do
  derived_key ← scrypt crypto password encrypted.kdf_params
  let half = length derived_key / 2
  let first_half = take half derived_key
  let second_half = drop half derived_key
  guard (bytes_eq (hmac_sha256 crypto second_half encrypted.cipher_text) encrypted.mac)
      (runtime_error error_msg_mac)
  ok (aes128_ctr_decrypt crypto first_half encrypted.cipher_text encrypted.iv)

-- KeyFileReader(filePath, password), behind the reading of the file.
unfoldable pub open_content : CryptoLib → EncryptedData → Bytes → Result KeyFileReader
unfolding derive_secret_key
open_content crypto encrypted password = do
  check_number encrypted.version key_file_version error_msg_key_file_version
  check_param encrypted.cipher key_file_cipher_algorithm error_msg_key_file_cipher
  check_param encrypted.kdf key_file_derivation_function error_msg_key_file_derivation_function
  secret_key ← derive_secret_key crypto encrypted password
  ok (record { secret_key = secret_key })

unfoldable pub read : JsonTreeLib → CryptoLib → Files → Bytes → Bytes → Result KeyFileReader
unfolding file_content open_content
read json crypto files path password = do
  check_file files path (codes "json")
  encrypted ← file_content json (stream files path)
  open_content crypto encrypted password

unfoldable pub get_address : CryptoLib → Bech32Lib → KeyFileReader → Result Address
get_address crypto bech32 r = from_public_key bech32 (Crypto.get_public_key crypto r.secret_key)

unfoldable pub get_seed : CryptoLib → KeyFileReader → Bytes
get_seed crypto r = Crypto.get_seed crypto r.secret_key
