-- ===== src/Cli/SecretKey.antt =====
-- cli/secretkeyprovider.cpp, its header, and signTransaction of cli/cli_utility.cpp. The base class
-- `ISecretKey` of include/filehandler/isecretkey.h has two classes.
use mx_sdk_cpp.Common.{
  true, false, not, Bytes, codes, is_empty, bytes_eq, some, Result, ok, err, invalid_argument,
  ◌>>=◌, ◌>>◌, guard,
}
use mx_sdk_cpp.Utils.Errors.{error_msg_missing_password, error_msg_file_extension_invalid}
use mx_sdk_cpp.Libraries.Bech32.{Bech32Lib}
use mx_sdk_cpp.Libraries.Crypto.{CryptoLib}
use mx_sdk_cpp.Libraries.Json.{JsonLib}
use mx_sdk_cpp.Libraries.JsonTree.{JsonTreeLib}
use mx_sdk_cpp.Libraries.OptionParser.{ParseResult}
use mx_sdk_cpp.Account.Address.{Address}
use mx_sdk_cpp.FileHandler.{Files, file_extension}
use mx_sdk_cpp.FileHandler.Pem.{PemFileReader}
use mx_sdk_cpp.FileHandler.Pem
use mx_sdk_cpp.FileHandler.KeyFile.{KeyFileReader}
use mx_sdk_cpp.FileHandler.KeyFile
use mx_sdk_cpp.Transactions.Signer.{from_seed}
use mx_sdk_cpp.Transactions.Transaction.{Transaction}
use mx_sdk_cpp.Transactions.Transaction.Sign.{sign}

-- m_keyFile
pub data SecretKeyProvider : Type 0 where
  pem_file : PemFileReader → SecretKeyProvider
  key_file : KeyFileReader → SecretKeyProvider

module _ (json : JsonTreeLib) (crypto : CryptoLib) (files : Files) (input : ParseResult) where
  abbrev read_pem : Bytes → Result SecretKeyProvider
  unfolding Pem.read
  read_pem key_path = do r ← Pem.read files key_path; ok (pem_file r)

  abbrev read_key_file : Bytes → Result SecretKeyProvider
  unfolding KeyFile.read
  read_key_file key_path = do
    password ← input.as_text (codes "password")
    guard (not (is_empty password)) (invalid_argument error_msg_missing_password)
    r ← KeyFile.read json crypto files key_path password
    ok (key_file r)

  -- The constructor, by the extension of the path.
  unfoldable pub read_by_extension : Bytes → Bytes → Result SecretKeyProvider
  unfolding Pem.read KeyFile.read
  read_by_extension key_path extension = elim (bytes_eq extension (codes "pem")) [
    | true ↦ read_pem key_path
    | false ↦ elim (bytes_eq extension (codes "json")) [
      | true ↦ read_key_file key_path
      | false ↦ err (invalid_argument error_msg_file_extension_invalid)
    ]
  ]

  unfoldable pub create : Result SecretKeyProvider
  unfolding read_by_extension
  create = do
    key_path ← input.as_text (codes "key")
    read_by_extension key_path (file_extension key_path)

module _ (bech32 : Bech32Lib) (crypto : CryptoLib) where
  unfoldable pub get_seed : SecretKeyProvider → Bytes
  get_seed (pem_file r) = Pem.get_seed r
  get_seed (key_file r) = KeyFile.get_seed crypto r

  unfoldable pub get_address : SecretKeyProvider → Result Address
  get_address (pem_file r) = Pem.get_address bech32 r
  get_address (key_file r) = KeyFile.get_address crypto bech32 r

  -- cli::utility::signTransaction
  unfoldable pub sign_transaction : JsonLib → Transaction → SecretKeyProvider → Result Transaction
  unfolding get_seed get_address
  sign_transaction json transaction key = do
    sender_address ← get_address key
    signer ← from_seed crypto (get_seed key)
    sign json crypto (record transaction { sender = some sender_address }) signer
