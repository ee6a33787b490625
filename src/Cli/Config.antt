-- ===== src/Cli/Config.antt =====
-- cli/config/cliconfig.cpp, cli/config/cliconfig.h and src/utils/cfg.h. What is printed is left out, and
-- the path is the one that `getCanonicalRootPath` makes.
pub mod Replace
use mx_sdk_cpp.Common.{
  ℕ, ◌+◌, Bool, true, false, not, ◌||◌, List, [], ◌∷◌, ◌++◌, Bytes, codes, length, take, drop,
  is_empty, bytes_eq, Option, none, some, if◌then◌else◌, Result, ok, err, Error, runtime_error,
  library, ◌>>=◌,
}
use mx_sdk_cpp.Common.Texts.{lines, find, contains}
use mx_sdk_cpp.Libraries.Toml.{TomlLib}
use mx_sdk_cpp.Cli.Outcome.{Outcome, returned, null_dereference}
use mx_sdk_cpp.FileHandler.{Files, stream}

pub data Network : Type 0 where
  mainnet devnet testnet local : Network

-- m_networkMap
abbrev pub network_name : Network → Bytes
network_name mainnet = codes "Mainnet"
network_name devnet = codes "Devnet"
network_name testnet = codes "Testnet"
network_name local = codes "Local"

-- chainID, proxyUrl
pub record Config : Type 0 where
  pub chain_id : Bytes
  pub proxy_url : Bytes

abbrev pub default_config : Config
default_config = record {
  chain_id = codes "T";
  proxy_url = codes "https://testnet-gateway.multiversx.com";
}

module _ (toml : TomlLib) where
  -- The fields of the table that the file names.
  unfoldable pub table_config : Option toml.Table → Outcome Config
  table_config none = null_dereference
  table_config (some t) =
      if not (toml.contains t (codes "ChainID")) || not (toml.contains t (codes "ProxyUrl"))
      then returned default_config
      else returned (record {
        chain_id = toml.get_text t (codes "ChainID");
        proxy_url = toml.get_text t (codes "ProxyUrl");
      })

  unfoldable pub named_config : toml.Table → Bytes → Outcome Config
  unfolding table_config
  named_config root name =
      if is_empty name then returned default_config else table_config (toml.get_table root name)

  -- Each exception ends in the default values.
  unfoldable pub parsed_config : Result toml.Table → Outcome Config
  unfolding named_config
  parsed_config (err e) = returned default_config
  parsed_config (ok root) = named_config root (toml.qualified_text root (codes "Config.CLIConfig"))

  -- A file that does not open is an exception of the library.
  unfoldable pub parse_file : Option Bytes → Result toml.Table
  parse_file none = err (library [])
  parse_file (some content) = toml.parse content

  unfoldable pub config : Files → Bytes → Outcome Config
  unfolding parsed_config parse_file
  config files toml_path = parsed_config (parse_file (files toml_path))

abbrev pub cli_config : Bytes
cli_config = codes "CLIConfig"

abbrev pub new_line : Network → Bytes
new_line network = codes "CLIConfig = \"" ++ network_name network ++ codes "\""

-- `content.replace(content.find(line), line.length(), text)`
abbrev pub replace_at : Option ℕ → Bytes → Bytes → Bytes → Result Bytes
replace_at none content line text = err (library [])
replace_at (some i) content line text =
    ok (take i content ++ text ++ drop (i + length line) content)

-- The loop over the lines, up to the first that has the word.
unfoldable pub set_network_loop : Bytes → Bytes → Network → Bytes → List Bytes → Result Bytes
unfolding find
set_network_loop toml_path content network word [] =
    err (runtime_error (codes "Could not find CLIConfig table in " ++ toml_path))
set_network_loop toml_path content network word (line ∷ ls) =
    let rest = set_network_loop toml_path content network word ls in
    if contains word line
    then replace_at (find line content) content line (new_line network)
    else rest

-- The new content of the file, of setNetwork.
unfoldable pub set_network_text : Bytes → Network → Bytes → Result Bytes
unfolding set_network_loop
set_network_text toml_path network content =
    set_network_loop toml_path content network cli_config (lines content)

abbrev replaced : Files → Bytes → Bytes → Files
replaced files path content p = if bytes_eq path p then some content else files p

-- `ofs.open(path, trunc); ofs << content`, which changes nothing and throws nothing where the operating
-- system does not open the path for writing; `opens` says where it does.
abbrev pub write_file : (Bytes → Bool) → Files → Bytes → Bytes → Files
write_file opens files path content = if opens path then replaced files path content else files

unfoldable pub set_network : (Bytes → Bool) → Files → Bytes → Network → Result Files
unfolding set_network_text
set_network opens files toml_path network = do
  content ← set_network_text toml_path network (stream files toml_path)
  ok (write_file opens files toml_path content)
