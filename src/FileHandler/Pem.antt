-- ===== src/FileHandler/Pem.antt =====
-- src/filehandler/pemreader.cpp and include/filehandler/pemreader.h.
pub mod Plain
pub mod RoundTrip
use mx_sdk_cpp.Common.{
  ℕ, ◌+◌, not, List, [], ◌∷◌, ◌++◌, Bytes, codes, length, take, drop, is_empty, bytes_eq, ◌==◌,
  if◌then◌else◌, Result, ok, invalid_argument, length_error, ◌>>=◌, ◌>>◌, guard,
}
use mx_sdk_cpp.Common.Texts.{lines}
use mx_sdk_cpp.Utils.Base64
use mx_sdk_cpp.Utils.Hex.{hex_to_bytes}
use mx_sdk_cpp.Utils.Errors.{error_msg_file_empty, error_msg_key_bytes_size}
use mx_sdk_cpp.Libraries.Bech32.{Bech32Lib}
use mx_sdk_cpp.Wrappers.Crypto.{seed_length}
use mx_sdk_cpp.Account.Address.{Address, public_key_length, from_public_key}
use mx_sdk_cpp.FileHandler.{Files, stream, check_file}

-- m_fileKeyBytes
pub record PemFileReader : Type 0 where
  pub file_key_bytes : Bytes

abbrev pub dashes : Bytes
dashes = codes "-----"

-- The loop of getFileContent over the lines.
unfoldable pub join_key_lines : Bytes → List Bytes → Bytes
join_key_lines key_lines [] = key_lines
join_key_lines key_lines (line ∷ ls) =
    join_key_lines (if bytes_eq (take 5 line) dashes then key_lines else key_lines ++ line) ls

-- getFileContent, of the text in the file
unfoldable pub key_text : Bytes → Bytes
unfolding join_key_lines
key_text content = join_key_lines [] (lines content)

-- getKeyBytesFromContent
unfoldable pub key_bytes : Bytes → Bytes
key_bytes content = hex_to_bytes (Base64.decode content)

module _ (files : Files) where
  -- PemFileReader(filePath)
  unfoldable pub read : Bytes → Result PemFileReader
  unfolding key_text key_bytes
  read path = do
    check_file files path (codes "pem")
    let content = key_text (stream files path)
    guard (not (is_empty content)) (invalid_argument error_msg_file_empty)
    guard (length (key_bytes content) == seed_length + public_key_length)
        (length_error error_msg_key_bytes_size)
    ok (record { file_key_bytes = key_bytes content })

unfoldable pub get_address : Bech32Lib → PemFileReader → Result Address
get_address lib r = from_public_key lib (drop seed_length r.file_key_bytes)

unfoldable pub get_seed : PemFileReader → Bytes
get_seed r = take seed_length r.file_key_bytes
