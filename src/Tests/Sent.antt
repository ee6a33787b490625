-- ===== src/Tests/Sent.antt =====
-- The command `esdt transfer` on a concrete key and concrete answers of the network.
use mx_sdk_cpp.Common.{
  true, same_ok, ◌≡◌, refl, sym, ◌∙◌, subst, List, [], ◌∷◌, ◌++◌, Bytes, codes, inl, none, some, ok,
  arith, length,
}
use mx_sdk_cpp.Common.Texts.{lines, last_of, find}
use mx_sdk_cpp.Common.Digits.{print}
use mx_sdk_cpp.Utils.Base64
use mx_sdk_cpp.Utils.Hex.{string_to_hex, hex_to_bytes}
use mx_sdk_cpp.BigUInt.{from_string, from_u64}
use mx_sdk_cpp.Libraries.JsonTree.{Tree, text, number}
use mx_sdk_cpp.Libraries.OptionParser.{ParseResult}
use mx_sdk_cpp.Account.Address.{Address}
use mx_sdk_cpp.FileHandler.{file_extension, check_file, file_exists, check_param}
use mx_sdk_cpp.FileHandler.Pem.{read, key_text, join_key_lines, key_bytes}
use mx_sdk_cpp.FileHandler.Pem
use mx_sdk_cpp.Transactions.Gas.{NetworkConfig, for_esdt_transfer}
use mx_sdk_cpp.Transactions.Signer.{from_seed}
use mx_sdk_cpp.Transactions.Transaction.Serialize.{serialize, transaction_json}
use mx_sdk_cpp.Transactions.Transaction.Sign.{sign, serialized_tx_msg}
use mx_sdk_cpp.Wrappers.OrderedJson
use mx_sdk_cpp.Wrappers.Crypto
use mx_sdk_cpp.Cli.Outcome.{returned}
use mx_sdk_cpp.Cli.Handlers.{handle_transfer_esdt}
use mx_sdk_cpp.Cli.Handlers.Sent.{Sent, transferred, IsOwn, Reports-Sent}
use mx_sdk_cpp.Transactions.Transaction.{Transaction}
use mx_sdk_cpp.Cli.Config.{default_config, config, parsed_config, parse_file, named_config}
use mx_sdk_cpp.Cli.Input.{
  create_transaction, get_nonce, get_value, get_receiver, get_receiver_name, get_sender_name,
  get_gas_price, get_gas_limit, get_data, get_version, get_options, number_or_default,
  text_or_default, bytes_if_exists, number_if_exists,
}
use mx_sdk_cpp.Cli.Options
use mx_sdk_cpp.Cli.Requests.{Tools, transfer_input, transfer_built, with_args, sign_and_send}
use mx_sdk_cpp.Transactions.Builders.{build_esdt}
use mx_sdk_cpp.Transactions.Builders.Built.{zero_amount}
use mx_sdk_cpp.Transactions.Builders.Factory.{create_token_transfer}
use mx_sdk_cpp.Transactions.Builders.Factory
use mx_sdk_cpp.Transactions.Payload.Transfer
use mx_sdk_cpp.Transactions.TokenPayment.{fungible_from_big_uint}
use mx_sdk_cpp.SmartContracts.{add_string, add_big_uint, as_on_data, call_on_data, from_function}
use mx_sdk_cpp.BigUInt.{get_hex_value}
use mx_sdk_cpp.Cli.SecretKey.{SecretKeyProvider, pem_file, get_address, sign_transaction}
use mx_sdk_cpp.Cli.SecretKey
use mx_sdk_cpp.Provider.{get_network_config, send}
use mx_sdk_cpp.Provider.Requests.{IsAnswer, send-IsAnswer}
use mx_sdk_cpp.Provider.Requests.Gas.{get_network_config-IsAnswer}
use mx_sdk_cpp.Wrappers.Http.{application_json}
use mx_sdk_cpp.Wrappers.Http
use mx_sdk_cpp.Tests.Integers.{integers, integer_laws}
use mx_sdk_cpp.Tests.Objects.{bech32, crypto, crypto_laws, json}
use mx_sdk_cpp.Tests.Trees.{object, json_tree, json_tree_laws}
use mx_sdk_cpp.Tests.Texts.{key}
use mx_sdk_cpp.Tests.Payloads.{alice, alice-from_bech32}
use mx_sdk_cpp.Tests.Commands.{parsed_options, toml}
use mx_sdk_cpp.Tests.Network.{http, success}
use mx_sdk_cpp.Tests.Handled.{files, own_address, own_public_key, own_public_key-key}

abbrev network : NetworkConfig
network = record {
  chain_id = codes "T";
  gas_per_data_byte = 1500;
  min_gas_limit = 50000;
  min_gas_price = 1000000000;
}

abbrev network_data : Tree
network_data = object (
    (
      codes "config",
      object (
          (codes "erd_chain_id", text (codes "T"))
          ∷ (codes "erd_gas_per_data_byte", number 1500)
          ∷ (codes "erd_min_gas_limit", number 50000)
          ∷ (codes "erd_min_gas_price", number 1000000000)
          ∷ []),
    )
    ∷ [])

abbrev hash_data : Tree
hash_data = object ((codes "txHash", text (codes "ff01")) ∷ [])

abbrev texts : List (Bytes × Tree)
texts =
    (codes "/network/config", success network_data)
    ∷ (codes "/transaction/send", success hash_data)
    ∷ []

abbrev tools : Tools
tools = record {
  ints = integers;
  bech32 = bech32;
  crypto = crypto;
  json = json;
  tree = json_tree texts;
  http = http;
  toml = toml (object []);
  toml_path = codes "config.toml";
  opens = λ path. true;
}

abbrev transfer : ParseResult
transfer = parsed_options Options.transfer (
    codes "erdcpp"
    ∷ codes "esdt"
    ∷ codes "transfer"
    ∷ codes "--receiver"
    ∷ alice.bech32_address
    ∷ codes "--token"
    ∷ codes "TOK-a"
    ∷ codes "--value"
    ∷ codes "300"
    ∷ codes "--key"
    ∷ codes "key.pem"
    ∷ [])

abbrev own_pem_file : SecretKeyProvider
own_pem_file = pem_file (record { file_key_bytes = key ++ key })

own_key : SecretKey.create (json_tree texts) crypto files transfer ≡ ok own_pem_file
unfolding SecretKey.create SecretKey.read_by_extension read file_extension last_of check_file
    file_exists check_param key_text join_key_lines lines key_bytes Base64.decode Base64.encode
    string_to_hex hex_to_bytes
own_key = refl

network-IsAnswer :
    IsAnswer
      (json_tree texts)
      (json_tree_laws texts)
      (Http.get http default_config.proxy_url (codes "/network/config"))
      network_data
unfolding json_tree_laws Http.get Http.wrapped_result find
network-IsAnswer = record {
  parsed = success network_data;
  code = codes "successful";
  received = refl;
  parse_body = refl;
  no_error = inl refl;
  has_code = refl;
  accepted = refl;
  has_data = refl;
}

network_read :
    get_network_config (json_tree texts) http (record { url = default_config.proxy_url })
    ≡ ok network
unfolding json_tree_laws
network_read =
    get_network_config-IsAnswer (json_tree texts) (json_tree_laws texts) http
      (record { url = default_config.proxy_url }) network_data network network-IsAnswer refl refl
      refl refl (omega arith) (omega arith) (omega arith)

abbrev requested : Transaction
requested = record {
  nonce = 0;
  value = record { value = codes "300" };
  receiver_user_name = none;
  sender_user_name = none;
  receiver = some alice;
  sender = none;
  gas_price = 0;
  gas_limit = 0;
  chain_id = default_config.chain_id;
  version = 1;
  data_field = none;
  signature = none;
  options = none;
}

requested_created : create_transaction integers bech32 transfer default_config ≡ ok requested
unfolding create_transaction get_nonce get_value get_receiver get_receiver_name get_sender_name
    get_gas_price get_gas_limit get_data get_version get_options number_or_default text_or_default
    bytes_if_exists number_if_exists from_string from_u64 print
requested_created = rw alice-from_bech32 refl

read_input :
    transfer_input tools files transfer default_config
    ≡ ok (codes "TOK-a", ([] ∷ [], (own_pem_file, (requested, network))))
unfolding transfer_input
read_input = rw (own_key, requested_created, network_read) refl

abbrev payload : Bytes
payload = codes "ESDTTransfer@544f4b2d61@012c"

paid :
    Transfer.build integers (record {
      payment = fungible_from_big_uint (codes "TOK-a") (record { value = codes "300" }) 0;
      contract_call = from_function [];
    })
    ≡ ok payload
unfolding Transfer.build add_string add_big_uint string_to_hex as_on_data call_on_data get_hex_value
    fungible_from_big_uint from_function print
paid = refl

abbrev transfer_of : Bytes → Transaction
transfer_of content = record {
  nonce = 0;
  value = record { value = codes "0" };
  receiver_user_name = none;
  sender_user_name = none;
  receiver = some alice;
  sender = some alice;
  gas_price = 0;
  gas_limit = for_esdt_transfer (record { network_config = network }) (length content);
  chain_id = codes "T";
  version = 1;
  data_field = some content;
  signature = none;
  options = none;
}

built :
    transfer_built tools files transfer default_config
      (codes "TOK-a")
      own_pem_file
      requested
      network
      alice
    ≡ ok (transfer_of payload)
unfolding transfer_built build_esdt Transfer.create Transfer.set_payment Transfer.with_contract_call
    create_token_transfer Factory.create from_u64 print
built = rw (own_address, (zero_amount integers integer_laws).1, paid) refl

signed :
    (t : Transaction) × (sign json crypto (transfer_of (payload ++ codes "@")) (record { sk = key })
      ≡ ok t)
unfolding sign serialized_tx_msg serialize OrderedJson.serialize transaction_json
signed = (_, refl)

signed_text : (text : Bytes) × (serialize json signed.0 ≡ ok text)
unfolding signed sign serialized_tx_msg serialize OrderedJson.serialize transaction_json
signed_text = (_, refl)

transfer_signed :
    sign_transaction bech32 crypto json (transfer_of (payload ++ codes "@")) own_pem_file
    ≡ ok signed.0
unfolding sign_transaction from_seed SecretKey.get_seed Pem.get_seed Crypto.get_secret_key
transfer_signed = rw own_address signed.1

hash-IsAnswer :
    IsAnswer
      (json_tree texts)
      (json_tree_laws texts)
      (Http.post http default_config.proxy_url
        (codes "/transaction/send")
        signed_text.0
        application_json)
      hash_data
unfolding json_tree_laws Http.post Http.wrapped_result find
hash-IsAnswer = record {
  parsed = success hash_data;
  code = codes "successful";
  received = refl;
  parse_body = refl;
  no_error = inl refl;
  has_code = refl;
  accepted = refl;
  has_data = refl;
}

sent :
    send (json_tree texts) http (record { url = default_config.proxy_url }) json signed.0
    ≡ ok (codes "ff01")
unfolding json_tree_laws
sent =
    send-IsAnswer (json_tree texts) (json_tree_laws texts) http
      (record { url = default_config.proxy_url }) json signed.0 signed_text.0 hash_data
      (codes "ff01") signed_text.1 hash-IsAnswer refl

no_config : config tools.toml files (codes "config.toml") ≡ returned default_config
unfolding config parsed_config parse_file named_config
no_config = refl

reported : handle_transfer_esdt tools files transfer ≡ returned (codes "Transaction hash: ff01\n")
unfolding handle_transfer_esdt with_args sign_and_send
reported = rw (no_config, read_input, built, transfer_signed, sent) refl

own_pem_file-IsOwn : IsOwn tools files transfer own_pem_file
own_pem_file-IsOwn a addressed =
    subst (λ (b : Address). b.pk ≡ own_public_key) (same_ok (sym own_address ∙ addressed))
      own_public_key-key

key-IsOwn :
    (k : SecretKeyProvider)
    → SecretKey.create (json_tree texts) crypto files transfer ≡ ok k
    → IsOwn tools files transfer k
key-IsOwn k made =
    subst (λ (x : SecretKeyProvider). IsOwn tools files transfer x) (same_ok (sym own_key ∙ made))
      own_pem_file-IsOwn

Reports-Sent_example : Sent tools files transfer (codes "Transaction hash: ff01\n")
Reports-Sent_example =
    Reports-Sent tools files transfer crypto_laws key-IsOwn (codes "Transaction hash: ff01\n")
      (transferred reported)
