-- ===== src/FileHandler/KeyFile/Derive.antt =====
-- What `KeyFileReader` makes of a key file's content, by content and password.
use mx_sdk_cpp.Common.{
  ◌/◌, ◌≡◌, Bytes, codes, length, take, drop, bytes_eq, bytes_eq_refl, Option, some, All, IsByte,
  ok, runtime_error, ◌>>=◌, ◌>>◌, guard,
}
use mx_sdk_cpp.Utils.Errors.{
  error_msg_mac, error_msg_key_file_version, error_msg_key_file_derivation_function,
  error_msg_key_file_cipher,
}
use mx_sdk_cpp.Libraries.Crypto.{CryptoLib, CryptoLaws}
use mx_sdk_cpp.Libraries.JsonTree.{JsonTreeLib, JsonTreeLaws}
use mx_sdk_cpp.Wrappers.Crypto.{scrypt, hmac_sha256, aes128_ctr_decrypt}
use mx_sdk_cpp.FileHandler.{Files, file_extension}
use mx_sdk_cpp.FileHandler.Checks.{check_number-eq, check_param-eq, check_file-eq}
use mx_sdk_cpp.FileHandler.KeyFile.{
  EncryptedData, key_file_version, key_file_cipher_algorithm, key_file_derivation_function,
  derive_secret_key, open_content, file_content, read,
}
use mx_sdk_cpp.FileHandler.KeyFile.Content.{IsKeyFile, IsValid, file_content-IsKeyFile}

-- The names and the version that the reader asks for.
pub record IsSupported (d : EncryptedData) : Type 0 where
  pub version : d.version ≡ key_file_version
  pub cipher : d.cipher ≡ key_file_cipher_algorithm
  pub kdf : d.kdf ≡ key_file_derivation_function

module _ (crypto : CryptoLib) where
  abbrev pub derived : EncryptedData → Bytes → Option Bytes
  derived d password =
      crypto.scrypt password d.kdf_params.salt d.kdf_params.n d.kdf_params.r d.kdf_params.p
        d.kdf_params.dklen

  abbrev pub mac_key : Bytes → Bytes
  mac_key key = drop (length key / 2) key

  abbrev pub cipher_key : Bytes → Bytes
  cipher_key key = take (length key / 2) key

  -- `d` is what encrypting `secret` under the password gives.
  pub record IsEncryption (d : EncryptedData) (password secret : Bytes) : Type 0 where
    pub key : Bytes
    pub key_derived : derived d password ≡ some key
    pub cipher_text : d.cipher_text ≡ crypto.aes_ctr_xcrypt (cipher_key key) d.iv secret
    pub mac : d.mac ≡ crypto.hmac_sha256 (mac_key key) d.cipher_text

  module _ (d : EncryptedData) (password : Bytes) where
    pub derive_secret_key-some :
        (key : Bytes)
        → derived d password ≡ some key
        → derive_secret_key crypto d password ≡ (
            guard
              (bytes_eq (crypto.hmac_sha256 (mac_key key) d.cipher_text) d.mac)
              (runtime_error error_msg_mac)
            >> ok (crypto.aes_ctr_xcrypt (cipher_key key) d.iv d.cipher_text))
    unfolding derive_secret_key scrypt hmac_sha256 aes128_ctr_decrypt
    derive_secret_key-some key h = rw h

    open_content-IsSupported :
        IsSupported d
        → open_content crypto d password
          ≡ (derive_secret_key crypto d password >>= λ k. ok (record { secret_key = k }))
    unfolding open_content
    open_content-IsSupported k = rw (
      check_number-eq _ _ error_msg_key_file_version k.version,
      check_param-eq _ _ error_msg_key_file_cipher k.cipher,
      check_param-eq _ _ error_msg_key_file_derivation_function k.kdf,
    )

    pub open_content-IsEncryption :
        (laws : CryptoLaws crypto) (secret : Bytes)
        → All IsByte secret
        → IsSupported d
        → IsEncryption d password secret
        → open_content crypto d password ≡ ok (record { secret_key = secret })
    open_content-IsEncryption laws secret bytes k e = rw (
      open_content-IsSupported k,
      derive_secret_key-some e.key e.key_derived,
      e.mac,
      bytes_eq_refl (crypto.hmac_sha256 (mac_key e.key) d.cipher_text),
      e.cipher_text,
      laws.aes_ctr_xcrypt-aes_ctr_xcrypt (cipher_key e.key) d.iv secret bytes,
    )

  module _ (json : JsonTreeLib) (files : Files) (path : Bytes) (password : Bytes) where
    read-content :
        (content : Bytes)
        → files path ≡ some content
        → file_extension path ≡ codes "json"
        → read json crypto files path password
          ≡ (file_content json content >>= λ d. open_content crypto d password)
    unfolding read
    read-content content found extension =
        rw (check_file-eq files path content (codes "json") found extension, found)

    -- Given the laws of the JSON and the cryptography library: where a path opens, has the
    -- extension `json`, and its text is parsed as a value with the entries of a key file, in 32
    -- bits and in hexadecimal, the version, the cipher and the derivation function are the ones
    -- that the reader asks for, and the file holds what encrypting a secret of bytes under the
    -- password gives, the reader opens it and keeps that secret as the secret key.
    pub read-IsEncryption :
        (json_laws : JsonTreeLaws json) (laws : CryptoLaws crypto) (content : Bytes) (j : json.Json)
        (d : EncryptedData) (secret : Bytes)
        → files path ≡ some content
        → file_extension path ≡ codes "json"
        → json.parse content ≡ ok j
        → IsKeyFile (json_laws.view j) d
        → IsValid d
        → All IsByte secret
        → IsSupported d
        → IsEncryption d password secret
        → read json crypto files path password ≡ ok (record { secret_key = secret })
    read-IsEncryption json_laws laws content j d secret found extension parsed file valid bytes
          known e =
        rw
          (
            read-content content found extension,
            file_content-IsKeyFile json json_laws j d valid file content parsed,
          )
          (open_content-IsEncryption d password laws secret bytes known e)
