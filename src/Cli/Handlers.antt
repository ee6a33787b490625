-- ===== src/Cli/Handlers.antt =====
-- cli/cli_handler.cpp, its header and cli/main.cpp. A handler returns the files that it leaves, and what
-- it prints where it ends; the warning of a missing configuration is left out.
pub mod Signed
pub mod Sent
use mx_sdk_cpp.Common.{
  ℕ, ◌+◌, ◌-◌, Bool, true, false, ◌&&◌, leb, List, [], ◌∷◌, ◌++◌, map, Bytes, codes, bytes_eq,
  Option, none, some, if◌then◌else◌, Result, ok, err, what, guard, runtime_error, invalid_argument,
}
use mx_sdk_cpp.Libraries.OptionParser.{ParseResult, OptionsLib}
use mx_sdk_cpp.Utils.Errors.{error_msg_sodium_init}
use mx_sdk_cpp.FileHandler.{Files}
use mx_sdk_cpp.Transactions.Transaction.{Transaction}
use mx_sdk_cpp.Transactions.Transaction.Serialize.{serialize}
use mx_sdk_cpp.Cli.Outcome.{
  Outcome, returned, threw, null_dereference, ◌>>=◌, of_result, dereference,
}
use mx_sdk_cpp.Cli.Config.{
  Config, Network, mainnet, devnet, testnet, local, network_name, config, set_network, write_file,
}
use mx_sdk_cpp.Cli.ArgHandler.{
  parse, ArgParsedResult, RequestType, invalid, help, create_signed_transaction, issue_esdt,
  transfer_esdt, set_network_config,
}
use mx_sdk_cpp.Cli.Requests.{
  Tools, signed_for_file, issue, transfer_input, transfer_built, with_args, sign_and_send,
}

-- char(toupper(c)) and std::tolower(c)
abbrev to_upper : ℕ → ℕ
to_upper c = if leb b'a' c && leb c b'z' then c - 32 else c

abbrev to_lower : ℕ → ℕ
to_lower c = if leb b'A' c && leb c b'Z' then c + 32 else c

abbrev capital : Bytes → Bytes
capital [] = []
capital (c ∷ s) = to_upper c ∷ s

abbrev network_of : Bytes → Option Network
network_of name =
    if bytes_eq name (network_name mainnet)
    then some mainnet
    else if bytes_eq name (network_name devnet)
    then some devnet
    else if bytes_eq name (network_name testnet)
    then some testnet
    else if bytes_eq name (network_name local)
    then some local
    else none

module _ (tools : Tools) (files : Files) where
  open tools use {json, toml, toml_path, opens}

  -- The file is emptied before the transaction is serialized.
  unfoldable pub store : Bytes → Result Bytes → Files × Outcome Bytes
  store path (err e) = (write_file opens files path [], threw e)
  store path (ok text) = (
    write_file opens files path text,
    returned (codes "Transaction created and written successfully!\n"),
  )

  unfoldable pub write_transaction : Outcome (Bytes × Transaction) → Files × Outcome Bytes
  unfolding store
  write_transaction (threw e) = (files, threw e)
  write_transaction null_dereference = (files, null_dereference)
  write_transaction (returned (path, transaction)) = store path (serialize json transaction)

  abbrev with_hash : Bytes → Outcome Bytes
  with_hash hash = returned (codes "Transaction hash: " ++ hash ++ codes "\n")

  module _ (input : ParseResult) where
    unfoldable pub handle_create_signed_transaction : Files × Outcome Bytes
    unfolding write_transaction
    handle_create_signed_transaction =
        write_transaction
          (do c ← config toml files toml_path; of_result (signed_for_file tools files input c))

    unfoldable pub handle_issue_esdt : Outcome Bytes
    handle_issue_esdt = do
      c ← config toml files toml_path
      hash ← of_result (issue tools files input c)
      with_hash hash

    -- `*tx.m_receiver` and `*tx.m_data`
    unfoldable pub handle_transfer_esdt : Outcome Bytes
    handle_transfer_esdt = do
      c ← config toml files toml_path
      (token, (args, (key, (tx, network_config)))) ← of_result (transfer_input tools files input c)
      receiver ← dereference tx.receiver
      built ← of_result (transfer_built tools files input c token key tx network_config receiver)
      text ← dereference built.data_field
      hash ← of_result (
          sign_and_send tools files input c key
            (with_args tools files input c args network_config built text))
      with_hash hash

    abbrev named : Bytes → Bytes
    named text = capital (map to_lower text)

    -- The configuration is read again behind the change.
    unfoldable pub report_network : Bytes → Files → Files × Outcome Bytes
    report_network name changed = (
      changed,
      do
        c ← config toml changed toml_path
        returned (
            codes "Config changed to: "
            ++ name
            ++ codes "\nChainID = "
            ++ c.chain_id
            ++ codes "\nProxyUrl = "
            ++ c.proxy_url
            ++ codes "\n"),
    )

    unfoldable pub change_network : Bytes → Option Network → Files × Outcome Bytes
    unfolding report_network
    change_network name none = (files, threw (invalid_argument (codes "Invalid network: " ++ name)))
    change_network name (some network) = elim (set_network opens files toml_path network) [
      | err e ↦ (files, threw e)
      | ok changed ↦ report_network name changed
    ]

    unfoldable pub handle_set_network_config : Files × Outcome Bytes
    unfolding change_network
    handle_set_network_config = elim (input.as_text (codes "config")) [
      | err e ↦ (files, threw e)
      | ok text ↦ change_network (named text) (network_of (named text))
    ]

  unfoldable pub handle_request : ArgParsedResult → Files × Outcome Bytes
  unfolding handle_create_signed_transaction handle_issue_esdt handle_transfer_esdt
      handle_set_network_config
  handle_request parsed = elim parsed.request_type [
    | help ↦ (files, returned parsed.help_text)
    | create_signed_transaction ↦ handle_create_signed_transaction parsed.result
    | issue_esdt ↦ (files, handle_issue_esdt parsed.result)
    | transfer_esdt ↦ (files, handle_transfer_esdt parsed.result)
    | set_network_config ↦ handle_set_network_config parsed.result
    | invalid ↦ (files, returned [])
  ]

  -- cli::init, where `initialized` says that sodium_init() answers no number below 0
  unfoldable pub init : Bool → Result (Unit {0})
  init initialized = guard initialized (runtime_error error_msg_sodium_init)

  -- What main prints of an exception.
  unfoldable pub report : Files × Outcome Bytes → Files × Outcome Bytes
  report (left, threw e) = (left, returned (what e ++ codes "\n"))
  report (left, returned message) = (left, returned message)
  report (left, null_dereference) = (left, null_dereference)

  unfoldable pub requested : Result ArgParsedResult → Files × Outcome Bytes
  unfolding handle_request
  requested (err e) = (files, threw e)
  requested (ok parsed) = handle_request parsed

  abbrev started : OptionsLib → List Bytes → Result (Unit {0}) → Result ArgParsedResult
  started options argv (err e) = err e
  started options argv (ok done) = parse options argv

  -- main
  unfoldable pub run : OptionsLib → Bool → List Bytes → Files × Outcome Bytes
  unfolding init report requested
  run options initialized argv = report (requested (started options argv (init initialized)))
