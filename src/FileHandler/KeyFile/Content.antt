-- ===== src/FileHandler/KeyFile/Content.antt =====
-- What `KeyFileReader::getFileContent` reads of a file that says what a key file says.
use mx_sdk_cpp.Common.{◌<◌, ◌^◌, ◌≡◌, List, [], ◌∷◌, Bytes, codes, some, All, IsByte, ok}
use mx_sdk_cpp.Utils.Hex.{string_to_hex}
use mx_sdk_cpp.Utils.Hex.RoundTrip.{hex_to_string-string_to_hex}
use mx_sdk_cpp.Libraries.JsonTree.{JsonTreeLib, JsonTreeLaws, Tree, number, text}
use mx_sdk_cpp.Wrappers.JsonPaths.{lookup_path, text_at-lookup_path, number_at-lookup_path}
use mx_sdk_cpp.FileHandler.KeyFile.{
  EncryptedData, bytes_at, read_kdf_params, read_content, file_content,
}

-- The texts of a key file: numbers, names, and byte strings in hexadecimal.
pub record IsKeyFile (t : Tree) (d : EncryptedData) : Type 0 where
  pub version : lookup_path t (codes "version" ∷ []) ≡ some (number d.version)
  pub kdf : lookup_path t (codes "crypto" ∷ codes "kdf" ∷ []) ≡ some (text d.kdf)
  pub cipher : lookup_path t (codes "crypto" ∷ codes "cipher" ∷ []) ≡ some (text d.cipher)
  pub dklen :
      lookup_path t (codes "crypto" ∷ codes "kdfparams" ∷ codes "dklen" ∷ [])
      ≡ some (number d.kdf_params.dklen)
  pub n :
      lookup_path t (codes "crypto" ∷ codes "kdfparams" ∷ codes "n" ∷ [])
      ≡ some (number d.kdf_params.n)
  pub r :
      lookup_path t (codes "crypto" ∷ codes "kdfparams" ∷ codes "r" ∷ [])
      ≡ some (number d.kdf_params.r)
  pub p :
      lookup_path t (codes "crypto" ∷ codes "kdfparams" ∷ codes "p" ∷ [])
      ≡ some (number d.kdf_params.p)
  pub salt :
      lookup_path t (codes "crypto" ∷ codes "kdfparams" ∷ codes "salt" ∷ [])
      ≡ some (text (string_to_hex d.kdf_params.salt))
  pub iv :
      lookup_path t (codes "crypto" ∷ codes "cipherparams" ∷ codes "iv" ∷ [])
      ≡ some (text (string_to_hex d.iv))
  pub cipher_text :
      lookup_path t (codes "crypto" ∷ codes "ciphertext" ∷ [])
      ≡ some (text (string_to_hex d.cipher_text))
  pub mac : lookup_path t (codes "crypto" ∷ codes "mac" ∷ []) ≡ some (text (string_to_hex d.mac))

-- Numbers of 32 bits and byte strings.
pub record IsValid (d : EncryptedData) : Type 0 where
  pub version : d.version < 2 ^ 32
  pub dklen : d.kdf_params.dklen < 2 ^ 32
  pub n : d.kdf_params.n < 2 ^ 32
  pub r : d.kdf_params.r < 2 ^ 32
  pub p : d.kdf_params.p < 2 ^ 32
  pub salt : All IsByte d.kdf_params.salt
  pub iv : All IsByte d.iv
  pub cipher_text : All IsByte d.cipher_text
  pub mac : All IsByte d.mac

module _ (json : JsonTreeLib) (laws : JsonTreeLaws json) where
  module _ (j : json.Json) (path : List Bytes) where
    pub bytes_at-lookup_path :
        (s : Bytes)
        → All IsByte s
        → lookup_path (laws.view j) path ≡ some (text (string_to_hex s))
        → bytes_at json j path ≡ ok s
    unfolding bytes_at
    bytes_at-lookup_path s bytes h =
        rw (text_at-lookup_path json laws j path (string_to_hex s) h)
          (hex_to_string-string_to_hex s bytes)

  module _ (j : json.Json) (d : EncryptedData) (valid : IsValid d)
      (file : IsKeyFile (laws.view j) d) where
    read_kdf_params-IsKeyFile : read_kdf_params json j ≡ ok d.kdf_params
    unfolding read_kdf_params
    read_kdf_params-IsKeyFile = rw (
      number_at-lookup_path json laws j _ _ valid.dklen file.dklen,
      number_at-lookup_path json laws j _ _ valid.n file.n,
      number_at-lookup_path json laws j _ _ valid.r file.r,
      number_at-lookup_path json laws j _ _ valid.p file.p,
      bytes_at-lookup_path j _ _ valid.salt file.salt,
    )

    pub file_content-IsKeyFile :
        (content : Bytes) → json.parse content ≡ ok j → file_content json content ≡ ok d
    unfolding file_content read_content
    file_content-IsKeyFile content parsed = rw (
      parsed,
      number_at-lookup_path json laws j _ _ valid.version file.version,
      text_at-lookup_path json laws j _ _ file.kdf,
      text_at-lookup_path json laws j _ _ file.cipher,
      read_kdf_params-IsKeyFile,
      bytes_at-lookup_path j _ _ valid.iv file.iv,
      bytes_at-lookup_path j _ _ valid.cipher_text file.cipher_text,
      bytes_at-lookup_path j _ _ valid.mac file.mac,
    )
