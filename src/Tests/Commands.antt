-- ===== src/Tests/Commands.antt =====
-- Concrete functions in place of the option parser and the TOML library, and the command line at concrete
-- arguments and files.
use mx_sdk_cpp.Common.{
  same_ok, ℕ, ◌≡◌, ◌≢◌, refl, subst, true, false, List, [], ◌∷◌, ◌++◌, Bytes, codes, take, drop,
  All, Option, none, some, bytes_eq, if◌then◌else◌, Result, ok, err, Error, library, arith,
}
use mx_sdk_cpp.Common.Digits.{number}
use mx_sdk_cpp.Common.Texts.{newline, unlines, IsLine, contains, find}
use mx_sdk_cpp.Libraries.JsonTree.{Tree, text, lookup, is_found}
use mx_sdk_cpp.Libraries.Toml.{TomlLib}
use mx_sdk_cpp.Libraries.OptionParser.{
  OptionsLib, OptionsLaws, Options, ParseResult, Kind, number64, number32, flag, texts, kind_of,
}
use mx_sdk_cpp.Libraries.OptionParser
use mx_sdk_cpp.Cli.Options
use mx_sdk_cpp.Cli.Outcome.{null_dereference}
use mx_sdk_cpp.Cli.Config.{
  Config, devnet, cli_config, new_line, config, parse_file, parsed_config, named_config,
  set_network_text,
}
use mx_sdk_cpp.Cli.Config.Replace.{Lacks, set_network_text-line}
use mx_sdk_cpp.Cli.ArgHandler.{
  ArgParsedResult, set_network_config, parse, request, parse_request, can_parse, check_empty_values,
}
use mx_sdk_cpp.Cli.ArgHandler.Requested.{IsRequest, parse-Asked}
use mx_sdk_cpp.Cli.Input.{create_transaction}
use mx_sdk_cpp.Cli.Input.Refused.{create_transaction_refused}
use mx_sdk_cpp.Tests.Integers.{integers}
use mx_sdk_cpp.Tests.Objects.{bech32}
use mx_sdk_cpp.Tests.Files.{one_file}
use mx_sdk_cpp.Tests.Trees.{object}

abbrev pub failure : {A : Type 0} → Result A
failure = err (library [])

-- The argument behind `--name`.
abbrev value_of : List Bytes → Bytes → Option Bytes
value_of [] name = none
value_of (a ∷ []) name = none
value_of (a ∷ v ∷ argv) name =
    let later = value_of (v ∷ argv) name in
    if bytes_eq a (codes "--" ++ name) then some v else later

abbrev times : Option Bytes → ℕ
times none = 0
times (some v) = 1

abbrev text_value : Option Kind → Option Bytes → Result Bytes
text_value (some OptionParser.text) (some v) = ok v
text_value (some OptionParser.text) none = ok []
text_value _ v = failure

abbrev u64_value : Option Kind → Option Bytes → Result ℕ
u64_value (some number64) (some v) = ok (number 10 v)
u64_value _ v = failure

abbrev u32_value : Option Kind → Option Bytes → Result ℕ
u32_value (some number32) (some v) = ok (number 10 v)
u32_value _ v = failure

-- Two names behind the program's, and options with values.
abbrev pub parsed_options : Options → List Bytes → ParseResult
parsed_options options argv = record {
  count = λ name. times (value_of argv name);
  as_text = λ name. text_value (kind_of options.entries name) (value_of argv name);
  as_u64 = λ name. u64_value (kind_of options.entries name) (value_of argv name);
  as_u32 = λ name. u32_value (kind_of options.entries name) (value_of argv name);
  as_flag = λ name. ok false;
  as_texts = λ name. ok ([] ∷ []);
  unmatched = take 2 (drop 1 argv);
  arguments = [];
}

abbrev pub option_parser : OptionsLib
option_parser = record {
  help = λ options. options.program;
  parse = λ options argv. ok (parsed_options options argv);
  empty = parsed_options Options.network [];
}

u64_refused :
    (k : Kind) (v : Option Bytes) → k ≢ number64 → (e : Error) × (u64_value (some k) v ≡ err e)
u64_refused OptionParser.text v h = (library [], refl)
u64_refused number64 v h = absurd (h refl)
u64_refused number32 v h = (library [], refl)
u64_refused flag v h = (library [], refl)
u64_refused texts v h = (library [], refl)

pub option_parser_laws : OptionsLaws option_parser
option_parser_laws = record {
  as_u64-other_kind = λ options argv result name kind parsed declared other.
      subst (λ (r : ParseResult). (e : Error) × (r.as_u64 name ≡ err e)) (same_ok parsed)
        (rw declared (u64_refused kind (value_of argv name) other));
}

abbrev with_options : List Bytes
with_options =
    codes "erdcpp" ∷ codes "transaction" ∷ codes "new" ∷ codes "--options" ∷ codes "1" ∷ []

abbrev some_config : Config
some_config = record { chain_id = codes "T"; proxy_url = codes "https://proxy" }

create_transaction_refused_example :
    (e : Error) × (create_transaction integers bech32
        (parsed_options Options.transaction with_options)
        some_config
      ≡ err e)
create_transaction_refused_example =
    create_transaction_refused option_parser option_parser_laws with_options
      (parsed_options Options.transaction with_options) refl refl integers bech32 some_config

abbrev set_devnet : List Bytes
set_devnet = codes "erdcpp" ∷ codes "network" ∷ codes "set" ∷ codes "--config" ∷ codes "devnet" ∷ []

abbrev devnet_request : ArgParsedResult
devnet_request = record {
  request_type = set_network_config;
  help_text = [];
  result = parsed_options Options.network set_devnet;
}

set_devnet_parsed : parse option_parser set_devnet ≡ ok devnet_request
unfolding parse parse_request request can_parse check_empty_values
set_devnet_parsed = refl

parse-Asked_example :
    IsRequest option_parser set_devnet devnet_request
      (codes "network")
      (codes "set")
      Options.network
parse-Asked_example = parse-Asked option_parser set_devnet devnet_request set_devnet_parsed

abbrev text_of : Option Tree → Bytes
text_of (some (text s)) = s
text_of _ = []

-- Tables are trees, and one text is parsed as one tree.
abbrev pub toml : Tree → TomlLib
toml root = record {
  Table = Tree;
  parse = λ s. ok root;
  qualified_text = λ t k. text_of (lookup t k);
  get_table = λ t k. lookup t k;
  contains = λ t k. is_found (lookup t k);
  get_text = λ t k. text_of (lookup t k);
}

abbrev only_name : Tree
only_name = object ((codes "Config.CLIConfig", text (codes "Devnet")) ∷ [])

-- A network that is named without a table for it.
no_table :
    config (toml only_name) (one_file (codes "config.toml") []) (codes "config.toml")
    ≡ null_dereference
unfolding config parse_file parsed_config named_config
no_table = refl

abbrev before : List Bytes
before = codes "[Config]" ∷ []

abbrev old_line : Bytes
old_line = codes "CLIConfig = \"Testnet\""

before-IsLine : All IsLine before
before-IsLine = ground arith

before-Lacks : All Lacks before
unfolding find
before-Lacks = (refl, tt)

old_line-IsLine : IsLine old_line
old_line-IsLine = ground arith

old_line_has : contains cli_config old_line ≡ true
unfolding find
old_line_has = refl

set_network_text-line_example :
    set_network_text
      (codes "config.toml")
      devnet
      (unlines before ++ (old_line ++ newline ∷ codes "\n[Devnet]"))
    ≡ ok (unlines before ++ new_line devnet ++ newline ∷ codes "\n[Devnet]")
set_network_text-line_example =
    set_network_text-line (codes "config.toml") devnet before old_line (codes "\n[Devnet]")
      before-IsLine before-Lacks old_line-IsLine old_line_has
