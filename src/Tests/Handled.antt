-- ===== src/Tests/Handled.antt =====
-- The command `transaction new` on concrete files, and a transaction that is sent.
use mx_sdk_cpp.Common.{
  true, same_ok, ◌≡◌, refl, sym, ◌∙◌, List, [], ◌∷◌, ◌++◌, Bytes, codes, inl, none, some, bytes_eq,
  if◌then◌else◌, ok, subst,
}
use mx_sdk_cpp.Common.Texts.{unlines, lines, last_of, find}
use mx_sdk_cpp.Utils.Base64
use mx_sdk_cpp.Utils.Hex.{string_to_hex, hex_to_bytes}
use mx_sdk_cpp.Libraries.JsonTree.{Tree, text}
use mx_sdk_cpp.Libraries.OptionParser.{ParseResult}
use mx_sdk_cpp.Account.Address.{Address}
use mx_sdk_cpp.FileHandler.{Files, file_extension, check_file, file_exists, check_param}
use mx_sdk_cpp.FileHandler.Pem.{read, key_text, join_key_lines, key_bytes}
use mx_sdk_cpp.Common.Digits.{print}
use mx_sdk_cpp.BigUInt.{from_string, from_u64}
use mx_sdk_cpp.FileHandler.Pem
use mx_sdk_cpp.Account.Address.RoundTrip.{from_public_key-quintets}
use mx_sdk_cpp.Transactions.Transaction.{Transaction}
use mx_sdk_cpp.Cli.Config.{
  default_config, write_file, config, parsed_config, parse_file, named_config,
}
use mx_sdk_cpp.Cli.Input.{
  create_transaction, get_nonce, get_value, get_receiver, get_receiver_name, get_sender_name,
  get_gas_price, get_gas_limit, get_data, get_version, get_options, number_or_default,
  text_or_default, bytes_if_exists, number_if_exists,
}
use mx_sdk_cpp.Wrappers.Crypto
use mx_sdk_cpp.Wrappers.OrderedJson
use mx_sdk_cpp.Transactions.Signer.{from_seed}
use mx_sdk_cpp.Transactions.Transaction.Serialize.{serialize, transaction_json}
use mx_sdk_cpp.Transactions.Transaction.Sign.{sign, serialized_tx_msg}
use mx_sdk_cpp.Cli.Outcome.{returned}
use mx_sdk_cpp.Cli.Options
use mx_sdk_cpp.Cli.Requests.{Tools, signed_for_file}
use mx_sdk_cpp.Cli.Handlers.{write_transaction, store, handle_create_signed_transaction}
use mx_sdk_cpp.Cli.Handlers.Signed.{Written, handle_create_signed_transaction-Written}
use mx_sdk_cpp.Cli.SecretKey.{SecretKeyProvider, pem_file, get_address, sign_transaction}
use mx_sdk_cpp.Cli.SecretKey
use mx_sdk_cpp.Tests.Integers.{integers}
use mx_sdk_cpp.Tests.Objects.{bech32, crypto, bech32_laws, crypto_laws, json}
use mx_sdk_cpp.Tests.Trees.{object, json_tree, json_tree_laws}
use mx_sdk_cpp.Tests.Texts.{key, key-IsByte}
use mx_sdk_cpp.Tests.Payloads.{alice, alice-from_bech32}
use mx_sdk_cpp.Tests.Commands.{parsed_options, toml}
use mx_sdk_cpp.Tests.Network.{http, proxy, success}
use mx_sdk_cpp.Wrappers.Http.{application_json}
use mx_sdk_cpp.Wrappers.Http
use mx_sdk_cpp.Provider.{send}
use mx_sdk_cpp.Provider.Requests.{IsAnswer, send-IsAnswer}

abbrev tools : Tools
tools = record {
  ints = integers;
  bech32 = bech32;
  crypto = crypto;
  json = json;
  tree = json_tree [];
  http = http;
  toml = toml (object []);
  toml_path = codes "config.toml";
  opens = λ path. true;
}

abbrev own_pem : Bytes
own_pem = unlines (
    codes "-----BEGIN-----"
    ∷ Base64.encode (string_to_hex (key ++ key))
    ∷ codes "-----END-----"
    ∷ [])

-- A key and an output file.
abbrev pub files : Files
files = λ path. if bytes_eq path (codes "key.pem") then some own_pem else some []

abbrev new_transaction : ParseResult
new_transaction = parsed_options Options.transaction (
    codes "erdcpp"
    ∷ codes "transaction"
    ∷ codes "new"
    ∷ codes "--receiver"
    ∷ alice.bech32_address
    ∷ codes "--key"
    ∷ codes "key.pem"
    ∷ codes "--outfile"
    ∷ codes "out.json"
    ∷ [])

own_key :
    SecretKey.create (json_tree []) crypto files new_transaction
    ≡ ok (pem_file (record { file_key_bytes = key ++ key }))
unfolding SecretKey.create SecretKey.read_by_extension read file_extension last_of check_file
    file_exists check_param key_text join_key_lines lines key_bytes Base64.decode Base64.encode
    string_to_hex hex_to_bytes
own_key = refl

pub own_address :
    get_address bech32 crypto (pem_file (record { file_key_bytes = key ++ key })) ≡ ok alice
unfolding SecretKey.get_address Pem.get_address
own_address = from_public_key-quintets bech32 bech32_laws key key-IsByte refl

abbrev unsigned : Transaction
unsigned = record {
  nonce = 0;
  value = record { value = codes "0" };
  receiver_user_name = none;
  sender_user_name = none;
  receiver = some alice;
  sender = none;
  gas_price = 0;
  gas_limit = 0;
  chain_id = codes "T";
  version = 1;
  data_field = none;
  signature = none;
  options = none;
}

unsigned_created : create_transaction integers bech32 new_transaction default_config ≡ ok unsigned
unfolding create_transaction get_nonce get_value get_receiver get_receiver_name get_sender_name
    get_gas_price get_gas_limit get_data get_version get_options number_or_default text_or_default
    bytes_if_exists number_if_exists from_string from_u64 print
unsigned_created = rw alice-from_bech32 refl

signed :
    (t : Transaction) × (sign json crypto
        (record unsigned { sender = some alice })
        (record { sk = key })
      ≡ ok t)
unfolding sign serialized_tx_msg serialize OrderedJson.serialize transaction_json
signed = (_, refl)

signed_text : (text : Bytes) × (serialize json signed.0 ≡ ok text)
unfolding signed sign serialized_tx_msg serialize OrderedJson.serialize transaction_json
signed_text = (_, refl)

unsigned_signed :
    sign_transaction bech32 crypto json unsigned (pem_file (record { file_key_bytes = key ++ key }))
    ≡ ok signed.0
unfolding sign_transaction from_seed SecretKey.get_seed Pem.get_seed Crypto.get_secret_key
unsigned_signed = rw own_address signed.1

handled : handle_create_signed_transaction tools files new_transaction ≡ (
  write_file tools.opens files (codes "out.json") signed_text.0,
  returned (codes "Transaction created and written successfully!\n"),
)
unfolding handle_create_signed_transaction signed_for_file write_transaction store config
    parsed_config parse_file named_config check_file file_exists check_param file_extension last_of
handled = rw (own_key, unsigned_created, unsigned_signed, signed_text.1) refl

abbrev pub own_public_key : Bytes
own_public_key = Crypto.get_public_key crypto (
    Crypto.get_secret_key crypto
      (SecretKey.get_seed bech32 crypto (pem_file (record { file_key_bytes = key ++ key }))))

pub own_public_key-key : key ≡ own_public_key
unfolding Crypto.get_public_key Crypto.get_secret_key SecretKey.get_seed Pem.get_seed
own_public_key-key = refl

owned :
    (k : SecretKeyProvider) (a : Address)
    → SecretKey.create (json_tree []) crypto files new_transaction ≡ ok k
    → get_address bech32 crypto k ≡ ok a
    → a.pk
      ≡ Crypto.get_public_key crypto
          (Crypto.get_secret_key crypto (SecretKey.get_seed bech32 crypto k))
owned k a made addressed =
    subst
      (λ (x : SecretKeyProvider).
        get_address bech32 crypto x ≡ ok a
        → a.pk
          ≡ Crypto.get_public_key crypto
              (Crypto.get_secret_key crypto (SecretKey.get_seed bech32 crypto x)))
      (same_ok (sym own_key ∙ made))
      (λ h.
        subst (λ (b : Address). b.pk ≡ own_public_key) (same_ok (sym own_address ∙ h))
          own_public_key-key)
      addressed

handle_create_signed_transaction-Written_example :
    Written tools files new_transaction
      (write_file tools.opens files (codes "out.json") signed_text.0)
handle_create_signed_transaction-Written_example =
    handle_create_signed_transaction-Written tools files crypto_laws new_transaction
      (write_file tools.opens files (codes "out.json") signed_text.0)
      (codes "Transaction created and written successfully!\n") owned handled

abbrev hash_data : Tree
hash_data = object ((codes "txHash", text (codes "ff01")) ∷ [])

abbrev hash_texts : List (Bytes × Tree)
hash_texts = (codes "/transaction/send", success hash_data) ∷ []

hash-IsAnswer :
    IsAnswer
      (json_tree hash_texts)
      (json_tree_laws hash_texts)
      (Http.post http proxy.url (codes "/transaction/send") signed_text.0 application_json)
      hash_data
unfolding json_tree_laws Http.post Http.wrapped_result find
hash-IsAnswer = record {
  parsed = success hash_data;
  code = codes "successful";
  received = refl;
  parse_body = refl;
  no_error = inl refl;
  has_code = refl;
  accepted = refl;
  has_data = refl;
}

send-IsAnswer_example : send (json_tree hash_texts) http proxy json signed.0 ≡ ok (codes "ff01")
unfolding json_tree_laws
send-IsAnswer_example =
    send-IsAnswer (json_tree hash_texts) (json_tree_laws hash_texts) http proxy json signed.0
      signed_text.0 hash_data (codes "ff01") signed_text.1 hash-IsAnswer refl
