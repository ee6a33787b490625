-- ===== src/FileHandler/KeyFile/Opened.antt =====
-- What a key file holds that `KeyFileReader` opens.
use mx_sdk_cpp.Common.{
  ℕ, arith, subst, inl, inr, Option-cases, ◌≡◌, refl, sym, ap, ◌∙◌, true, false, Bool, [], ◌∷◌,
  Bytes, codes, bytes_eq, bytes_eq_iff, some, All, IsByte, Result, Error, ok, err, rethrow,
  >>=-eq-ok, guard-ok, guard, same_ok, runtime_error,
}
use mx_sdk_cpp.Utils.Errors.{error_msg_mac, error_msg_file_extension_invalid}
use mx_sdk_cpp.Utils.Hex.{hex_to_string}
use mx_sdk_cpp.Utils.Hex.Errors.{hex_to_string-IsByte}
use mx_sdk_cpp.Libraries.Crypto.{CryptoLib, CryptoLaws}
use mx_sdk_cpp.Libraries.JsonTree.{JsonTreeLib}
use mx_sdk_cpp.Wrappers.JsonPaths.{text_at, number_at}
use mx_sdk_cpp.Wrappers.Crypto.{scrypt}
use mx_sdk_cpp.FileHandler.{
  Files, stream, check_param, check_number, check_file, file_exists, file_extension,
}
use mx_sdk_cpp.FileHandler.KeyFile.{
  EncryptedData, KeyFileReader, bytes_at, read_kdf_params, read_content, file_content,
  derive_secret_key, open_content, read,
}
use mx_sdk_cpp.FileHandler.KeyFile.Derive.{
  IsSupported, IsEncryption, derived, mac_key, cipher_key, derive_secret_key-some,
}

guard-true : (b : Bool) (e : Error) → guard b e ≡ ok tt → b ≡ true
guard-true true e h = refl
guard-true false e h = absurd cc

check_param-ok : (s t error : Bytes) → check_param s t error ≡ ok tt → s ≡ t
unfolding check_param
check_param-ok s t error h = (bytes_eq_iff s t).0 (guard-true (bytes_eq s t) _ h)

check_number-ok : (n m : ℕ) (error : Bytes) → check_number n m error ≡ ok tt → n ≡ m
unfolding check_number
check_number-ok n m error h = ground arith

check_file-ok :
    (files : Files) (path : Bytes)
    → check_file files path (codes "json") ≡ ok tt
    → (content : Bytes) × (files path ≡ some content) × (file_extension path ≡ codes "json")
unfolding check_file file_exists
check_file-ok files path h = elim (Option-cases (files path)) [
  | inl absent ↦ let f = rw absent at h in absurd cc
  | inr (content, found) ↦ (
    content,
    found,
    check_param-ok (file_extension path) (codes "json") error_msg_file_extension_invalid
        (rw found at h),
  )
]

rethrow-ok {ℓ} :
    {A : Type ℓ} (r : Result A) (f : Error → Error) (a : A) → rethrow r f ≡ ok a → r ≡ ok a
rethrow-ok (ok b) f a h = h
rethrow-ok (err e) f a h = absurd cc

file_content-IsByte :
    (json : JsonTreeLib) (content : Bytes) (d : EncryptedData)
    → file_content json content ≡ ok d
    → All IsByte d.cipher_text
unfolding file_content read_content bytes_at
file_content-IsByte json content d h =
    let (j, _, r1) = >>=-eq-ok (json.parse content) _ (rethrow-ok _ _ _ h) in
    let (version, _, r2) = >>=-eq-ok (number_at json j (codes "version" ∷ [])) _ r1 in
    let (kdf, _, r3) = >>=-eq-ok (text_at json j (codes "crypto" ∷ codes "kdf" ∷ [])) _ r2 in
    let (cipher, _, r4) = >>=-eq-ok (text_at json j (codes "crypto" ∷ codes "cipher" ∷ [])) _ r3 in
    let (params, _, r5) = >>=-eq-ok (read_kdf_params json j) _ r4 in
    let (iv, _, r6) =
      >>=-eq-ok (bytes_at json j (codes "crypto" ∷ codes "cipherparams" ∷ codes "iv" ∷ [])) _ r5 in
    let (text, is_text, r7) =
      >>=-eq-ok (bytes_at json j (codes "crypto" ∷ codes "ciphertext" ∷ [])) _ r6 in
    let (mac, _, r8) = >>=-eq-ok (bytes_at json j (codes "crypto" ∷ codes "mac" ∷ [])) _ r7 in
    let (value, _, spelt) =
      >>=-eq-ok (text_at json j (codes "crypto" ∷ codes "ciphertext" ∷ [])) hex_to_string is_text in
    subst (λ (x : EncryptedData). All IsByte x.cipher_text) (same_ok r8)
      (hex_to_string-IsByte value text spelt)

module _ (crypto : CryptoLib) (laws : CryptoLaws crypto) (d : EncryptedData) (password : Bytes)
    (bytes : All IsByte d.cipher_text) where
  derive_secret_key-ok :
      (secret : Bytes)
      → derive_secret_key crypto d password ≡ ok secret
      → IsEncryption crypto d password secret
  unfolding derive_secret_key scrypt
  derive_secret_key-ok secret h = elim (Option-cases (derived crypto d password)) [
    | inl none_derived ↦ (let f = rw none_derived at h in absurd cc)
    | inr (key, made) ↦
        let (same_mac, same) =
          guard-ok (bytes_eq (crypto.hmac_sha256 (mac_key crypto key) d.cipher_text) d.mac)
            (runtime_error error_msg_mac)
            (ok (crypto.aes_ctr_xcrypt (cipher_key crypto key) d.iv d.cipher_text))
            (sym (derive_secret_key-some crypto d password key made) ∙ h) in
        record {
          key = key;
          key_derived = made;
          cipher_text =
              sym (
                laws.aes_ctr_xcrypt-aes_ctr_xcrypt (cipher_key crypto key) d.iv d.cipher_text bytes)
              ∙ ap (crypto.aes_ctr_xcrypt (cipher_key crypto key) d.iv) (same_ok same);
          mac = sym ((bytes_eq_iff _ d.mac).0 same_mac);
        }
  ]

  open_content-ok :
      (r : KeyFileReader)
      → open_content crypto d password ≡ ok r
      → IsSupported d × IsEncryption crypto d password r.secret_key
  unfolding open_content
  open_content-ok r h =
      let (_, is_version, r1) = >>=-eq-ok (check_number d.version _ _) _ h in
      let (_, is_cipher, r2) = >>=-eq-ok (check_param d.cipher _ _) _ r1 in
      let (_, is_kdf, r3) = >>=-eq-ok (check_param d.kdf _ _) _ r2 in
      let (secret, made, same) = >>=-eq-ok (derive_secret_key crypto d password) _ r3 in
      (
        record {
          version = check_number-ok _ _ _ is_version;
          cipher = check_param-ok _ _ _ is_cipher;
          kdf = check_param-ok _ _ _ is_kdf;
        },
        subst (λ (x : KeyFileReader). IsEncryption crypto d password x.secret_key) (same_ok same)
            (derive_secret_key-ok secret made),
      )

-- Given the laws of the cryptography library: where the reader opens a path with a secret key, the
-- path opens and has the extension `json`, the content is read as encrypted data with the version,
-- the cipher and the derivation function that the reader asks for, and this data is what
-- encrypting the secret key under the password gives, with its authentication code.
pub read_opened :
    (json : JsonTreeLib) (crypto : CryptoLib) (laws : CryptoLaws crypto) (files : Files)
    (path password : Bytes) (r : KeyFileReader)
    → read json crypto files path password ≡ ok r
    → (content : Bytes) × (d : EncryptedData) × (files path ≡ some content)
      × (file_extension path ≡ codes "json")
      × (file_content json content ≡ ok d)
      × IsSupported d
      × IsEncryption crypto d password r.secret_key
unfolding read
read_opened json crypto laws files path password r h =
    let (_, checked, r1) = >>=-eq-ok (check_file files path (codes "json")) _ h in
    let (content, found, extension) = check_file-ok files path checked in
    let (d, is_content, opened) = >>=-eq-ok (file_content json (stream files path)) _ r1 in
    let is_content' : file_content json content ≡ ok d = rw found at is_content in
    let (supported, encrypted) =
      open_content-ok crypto laws d password (file_content-IsByte json content d is_content') r
        opened in
    (content, d, found, extension, is_content', supported, encrypted)
