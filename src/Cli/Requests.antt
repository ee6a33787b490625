-- ===== src/Cli/Requests.antt =====
-- cli/cli_handler.cpp: what each handler makes of the options, up to the file or the answer that it ends
-- with. An argument that may be null is followed in Handlers.
use mx_sdk_cpp.Common.{
  Bool, false, List, [], ◌∷◌, ◌++◌, Bytes, codes, length, some, Result, ok, ◌>>=◌, ◌>>◌,
}
use mx_sdk_cpp.Libraries.Integers.{IntegerLib}
use mx_sdk_cpp.Libraries.Bech32.{Bech32Lib}
use mx_sdk_cpp.Libraries.Crypto.{CryptoLib}
use mx_sdk_cpp.Libraries.Json.{JsonLib}
use mx_sdk_cpp.Libraries.JsonTree.{JsonTreeLib}
use mx_sdk_cpp.Libraries.Http.{HttpLib}
use mx_sdk_cpp.Libraries.Toml.{TomlLib}
use mx_sdk_cpp.Libraries.OptionParser.{ParseResult}
use mx_sdk_cpp.BigUInt.{from_string}
use mx_sdk_cpp.Account.Address.{Address}
use mx_sdk_cpp.FileHandler.{Files, check_file}
use mx_sdk_cpp.Provider.{ProxyProvider, get_network_config, send}
use mx_sdk_cpp.Transactions.Gas.{NetworkConfig, for_esdt_transfer}
use mx_sdk_cpp.Transactions.Payload.Properties.{EsdtProperties}
use mx_sdk_cpp.Transactions.TokenPayment.{fungible_from_big_uint}
use mx_sdk_cpp.Transactions.Builders.{default_builder, build_egld, build_esdt, build_signed}
use mx_sdk_cpp.Transactions.Builders.Factory
use mx_sdk_cpp.Transactions.Builders.Factory.{create_esdt_issue, create_token_transfer}
use mx_sdk_cpp.Transactions.Transaction.{Transaction}
use mx_sdk_cpp.Cli.Config.{Config}
use mx_sdk_cpp.Cli.Input.{create_transaction}
use mx_sdk_cpp.Cli.SecretKey.{SecretKeyProvider, get_seed, get_address, sign_transaction}
use mx_sdk_cpp.Cli.SecretKey

-- The libraries, the path that CLIConfig is made with, and the paths that open for writing.
pub record Tools : Type 1 where
  pub ints : IntegerLib
  pub bech32 : Bech32Lib
  pub crypto : CryptoLib
  pub json : JsonLib
  pub tree : JsonTreeLib
  pub http : HttpLib
  pub toml : TomlLib
  pub toml_path : Bytes
  pub opens : Bytes → Bool

-- The arguments of a call, each behind a separator.
abbrev pub append_args : Bytes → List Bytes → Bytes
append_args text [] = text
append_args text (arg ∷ args) = append_args (text ++ b'@' ∷ arg) args

module _ (tools : Tools) (files : Files) (input : ParseResult) (c : Config) where
  open tools use {ints, bech32, crypto, json, tree, http}

  abbrev proxy : ProxyProvider
  proxy = record { url = c.proxy_url }

  -- The transaction of handleCreateSignedTransaction, and the path for it.
  unfoldable pub signed_for_file : Result (Bytes × Transaction)
  signed_for_file = do
    path ← input.as_text (codes "outfile")
    key ← SecretKey.create tree crypto files input
    created ← create_transaction ints bech32 input c
    transaction ← sign_transaction bech32 crypto json created key
    check_file files path (codes "json")
    ok (path, transaction)

  -- The properties that the options give; the ninth keeps its default.
  unfoldable pub read_properties : Result EsdtProperties
  read_properties = do
    can_freeze ← input.as_flag (codes "can-freeze")
    can_wipe ← input.as_flag (codes "can-wipe")
    can_pause ← input.as_flag (codes "can-pause")
    can_mint ← input.as_flag (codes "can-mint")
    can_burn ← input.as_flag (codes "can-burn")
    can_change_owner ← input.as_flag (codes "can-change-owner")
    can_upgrade ← input.as_flag (codes "can-upgrade")
    can_add_special_roles ← input.as_flag (codes "can-add-roles")
    ok (record {
      can_freeze = can_freeze;
      can_wipe = can_wipe;
      can_pause = can_pause;
      can_mint = can_mint;
      can_burn = can_burn;
      can_change_owner = can_change_owner;
      can_upgrade = can_upgrade;
      can_add_special_roles = can_add_special_roles;
      can_transfer_nft_create_role = false;
    })

  -- handleIssueESDT, which returns the hash
  unfoldable pub issue : Result Bytes
  unfolding read_properties
  issue = do
    token ← input.as_text (codes "token")
    ticker ← input.as_text (codes "ticker")
    supply ← input.as_text (codes "supply")
    decimals ← input.as_u32 (codes "dec")
    properties ← read_properties
    key ← SecretKey.create tree crypto files input
    tx ← create_transaction ints bech32 input c
    network_config ← get_network_config tree http proxy
    address ← get_address bech32 crypto key
    initial_supply ← from_string ints supply
    built ←
        create_esdt_issue ints bech32 (Factory.create network_config) tx.nonce address tx.gas_price
          token ticker initial_supply decimals properties
    signed ←
        build_signed json crypto (ok (build_egld default_builder built))
          (get_seed bech32 crypto key)
    send tree http proxy json signed

  -- What handleTransferESDT reads: the token, the arguments, the key, a transaction and the network. The
  -- function's name is read and not used.
  unfoldable pub transfer_input :
      Result (Bytes × (List Bytes × (SecretKeyProvider × (Transaction × NetworkConfig))))
  transfer_input = do
    token ← input.as_text (codes "token")
    function ← input.as_text (codes "function")
    args ← input.as_texts (codes "args")
    key ← SecretKey.create tree crypto files input
    tx ← create_transaction ints bech32 input c
    network_config ← get_network_config tree http proxy
    ok (token, (args, (key, (tx, network_config))))

  -- The transaction that is built for the receiver.
  unfoldable pub transfer_built :
      Bytes → SecretKeyProvider → Transaction → NetworkConfig → Address → Result Transaction
  transfer_built token key tx network_config receiver = do
    address ← get_address bech32 crypto key
    build_esdt ints (
        create_token_transfer (Factory.create network_config)
          (fungible_from_big_uint token tx.value 0) tx.nonce address receiver tx.gas_price)

  -- With the arguments behind its data, and the gas for the data.
  unfoldable pub with_args : List Bytes → NetworkConfig → Transaction → Bytes → Transaction
  with_args args network_config tx text =
      let text' = append_args text args in
      record tx {
        data_field = some text';
        gas_limit = for_esdt_transfer (record { network_config = network_config }) (length text');
      }

  unfoldable pub sign_and_send : SecretKeyProvider → Transaction → Result Bytes
  sign_and_send key tx = do
    signed ← sign_transaction bech32 crypto json tx key
    send tree http proxy json signed
