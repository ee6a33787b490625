-- ===== src/Cli/Options.antt =====
-- cli/inputhandler/options.cpp, options_esdt.cpp and their headers: the options of each command.
use mx_sdk_cpp.Common.{List, [], ◌∷◌, ◌++◌, Bytes, codes, Option, none, some}
use Prim.Native.String.{String}
use mx_sdk_cpp.Libraries.OptionParser.{
  OptionsLib, Options, Entry, Kind, text, number64, number32, flag, texts,
}

abbrev option : String → String → Kind → Option Bytes → Entry
option name description kind default_value = record {
  name = codes name;
  description = codes description;
  kind = kind;
  default_value = default_value;
}

-- initOptionsTx
abbrev pub transaction_entries : List Entry
transaction_entries =
    option "nonce" "Transaction nonce" number64 none
    ∷ option "value" "Transaction value" text none
    ∷ option "receiver" "Receiver's address" text none
    ∷ option "receiver-name" "Receiver's username" text (some (codes ""))
    ∷ option "sender-name" "Sender's username" text (some (codes ""))
    ∷ option "gas-price" "Transaction gas price" number64 none
    ∷ option "gas-limit" "Transaction gas limit" number64 none
    ∷ option "data" "Transaction data/payload" text (some (codes ""))
    ∷ option "version" "Transaction version" number64 (some (codes "1"))
    ∷ option "options" "Transaction options" number32 (some (codes "0"))
    ∷ option "key" "File containing the private key (pem or keyfile)" text none
    ∷ option "password" "Password for key file, not applicable for pem" text (some (codes ""))
    ∷ option "outfile" "Json file where the output will be stored" text none
    ∷ []

-- initOptionsNetwork
abbrev pub network_entries : List Entry
network_entries =
    option "config"
      "Set network config used to interact with ERDCPP CLI. Valid: mainnet, testnet, devnet, local (not case sensitive)"
      text none
    ∷ []

-- initOptionsIssue
abbrev pub issue_entries : List Entry
issue_entries =
    option "token" "Token id" text none
    ∷ option "ticker" "Token ticker" text none
    ∷ option "supply" "Initial supply" text none
    ∷ option "dec" "Number of decimals" number32 none
    ∷ option "gas-price" "Gas price" number64 none
    ∷ option "key" "Sender's private key (pem or keyfile)" text none
    ∷ option "password" "Password for key file, not applicable for pem" text (some (codes ""))
    ∷ option "nonce" "Sender account's nonce" number64 none
    ∷ option "can-freeze" "[Can freeze] property (default: false)" flag (some (codes "false"))
    ∷ option "can-wipe" "[Can wipe] property (default: false)" flag (some (codes "false"))
    ∷ option "can-pause" "[Can pause] property (default: false)" flag (some (codes "false"))
    ∷ option "can-mint" "[Can mint] property (default: false)" flag (some (codes "false"))
    ∷ option "can-burn" "[Can burn] property (default: false)" flag (some (codes "false"))
    ∷ option "can-change-owner" "[Can change owner] property (default: false)" flag
        (some (codes "false"))
    ∷ option "can-upgrade" "[Can upgrade] property (default: false)" flag (some (codes "false"))
    ∷ option "can-add-roles" "[Can add special roles] property (default: false)" flag
        (some (codes "false"))
    ∷ []

-- initOptionsTransfer
abbrev pub transfer_entries : List Entry
transfer_entries =
    option "nonce" "Sender account's nonce" number64 none
    ∷ option "gas-price" "Gas price" number64 none
    ∷ option "gas-limit" "Gas limit" number64 none
    ∷ option "receiver" "Receiver's address" text none
    ∷ option "token" "Token id" text none
    ∷ option "value" "ESDT value to transfer" text none
    ∷ option "function" "Smart contract function" text (some (codes ""))
    ∷ option "args" "Smart contract function args, hex encoded, comma separated, e.g.: 0a,3f6f"
        texts (some (codes ""))
    ∷ option "key" "Sender's private key (pem or keyfile)" text none
    ∷ option "password" "Password for key file, not applicable for pem" text (some (codes ""))
    ∷ []

-- m_optionsTx, m_optionsNetwork, m_optionsIssue and m_optionsTransfer
abbrev pub transaction : Options
transaction = record {
  program = codes "erdcpp transaction new";
  description = codes "Create signed transactions\n[command]: transaction\n[subcommand]: new";
  group = codes "new";
  entries = transaction_entries;
}

abbrev pub network : Options
network = record {
  program = codes "erdcpp network set";
  description = codes "Set network\n[command]: network\n[subcommand]: set";
  group = codes "set";
  entries = network_entries;
}

abbrev pub issue : Options
issue = record {
  program = codes "erdcpp esdt issue";
  description = codes "Issue ESDT\n[command]: esdt\n[subcommand]: issue";
  group = codes "issue";
  entries = issue_entries;
}

abbrev pub transfer : Options
transfer = record {
  program = codes "erdcpp esdt transfer";
  description = codes "Transfer ESDT\n[command]: esdt\n[subcommand]: transfer";
  group = codes "transfer";
  entries = transfer_entries;
}

-- OptionsESDT::help and CLIOptions::help
unfoldable pub esdt_help : OptionsLib → Bytes
esdt_help lib = lib.help transfer ++ codes "\n" ++ lib.help issue

unfoldable pub help : OptionsLib → Bytes
help lib = lib.help transaction ++ codes "\n" ++ esdt_help lib ++ codes "\n" ++ lib.help network
