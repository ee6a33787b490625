-- ===== src/Cli/ArgHandler.antt =====
-- cli/inputhandler/arghandler.cpp and its header: from the arguments to a request.
pub mod Requested
use mx_sdk_cpp.Common.{
  ℕ, Bool, not, true, false, ◌&&◌, ◌||◌, List, [], ◌∷◌, ◌++◌, Bytes, codes, length, is_empty,
  bytes_eq, ◌==◌, if◌then◌else◌, Result, ok, err, invalid_argument, ◌>>=◌, ◌>>◌, guard,
}
use mx_sdk_cpp.Utils.Errors.{error_msg_empty_value}
use mx_sdk_cpp.Libraries.OptionParser.{OptionsLib, Options, ParseResult}
use mx_sdk_cpp.Cli.Options
use mx_sdk_cpp.Cli.Options.{esdt_help}

pub data RequestType : Type 0 where
  invalid help create_signed_transaction issue_esdt transfer_esdt set_network_config : RequestType

-- requestType, help, result
pub record ArgParsedResult : Type 0 where
  pub request_type : RequestType
  pub help_text : Bytes
  pub result : ParseResult

-- parseCmd and parseSubCmd, of the arguments with the program's name in front
abbrev pub parse_cmd : List Bytes → Bytes
parse_cmd (program ∷ cmd ∷ rest) = cmd
parse_cmd _ = []

abbrev pub parse_sub_cmd : List Bytes → Bytes
parse_sub_cmd (program ∷ cmd ∷ sub_cmd ∷ rest) = sub_cmd
parse_sub_cmd _ = []

unfoldable pub check_empty_values : List (Bytes × Bytes) → Result (Unit {0})
check_empty_values [] = ok tt
check_empty_values ((key, value) ∷ arguments) = do
  guard (not (is_empty value)) (invalid_argument (error_msg_empty_value ++ key))
  check_empty_values arguments

-- isCmdHelp and isSubCmdHelp
abbrev pub is_help : Bytes → Bool
is_help s = bytes_eq s (codes "help") || (bytes_eq s (codes "--help") || bytes_eq s (codes "-h"))

module _ (lib : OptionsLib) where
  -- canParse, which returns true or throws, with the m_result that it sets
  unfoldable pub can_parse : List Bytes → Options → Result ParseResult
  unfolding check_empty_values
  can_parse argv options = do
    result ← lib.parse options argv
    guard (length result.unmatched == 2) (invalid_argument (codes "Invalid number of arguments"))
    check_empty_values result.arguments
    ok result

  abbrev pub with_help : Bytes → Result ArgParsedResult
  with_help help_text =
      ok (record { request_type = help; help_text = help_text; result = lib.empty })

  unfoldable pub request : List Bytes → Options → RequestType → Result ArgParsedResult
  unfolding can_parse
  request argv options request_type = do
    result ← can_parse argv options
    ok (record { request_type = request_type; help_text = []; result = result })

  abbrev pub is_call : List Bytes → Bytes → Bytes → Bool
  is_call argv cmd sub_cmd = bytes_eq (parse_cmd argv) cmd && bytes_eq (parse_sub_cmd argv) sub_cmd

  abbrev pub asks_help : List Bytes → Bytes → Bool
  asks_help argv cmd =
      bytes_eq (parse_cmd argv) cmd && (is_help (parse_sub_cmd argv) && length argv == 3)

  -- The branches of parse that parse options.
  unfoldable pub parse_request : List Bytes → Result ArgParsedResult
  unfolding request
  parse_request argv =
      if is_call argv (codes "transaction") (codes "new")
      then request argv Options.transaction create_signed_transaction
      else if is_call argv (codes "esdt") (codes "issue")
      then request argv Options.issue issue_esdt
      else if is_call argv (codes "esdt") (codes "transfer")
      then request argv Options.transfer transfer_esdt
      else if is_call argv (codes "network") (codes "set")
      then request argv Options.network set_network_config
      else ok (record { request_type = invalid; help_text = []; result = lib.empty })

  unfoldable pub parse : List Bytes → Result ArgParsedResult
  unfolding parse_request esdt_help Options.help
  parse argv =
      if is_help (parse_cmd argv) && length argv == 2
      then with_help (Options.help lib)
      else if asks_help argv (codes "transaction")
      then with_help (lib.help Options.transaction)
      else if asks_help argv (codes "esdt")
      then with_help (esdt_help lib)
      else if asks_help argv (codes "network")
      then with_help (lib.help Options.network)
      else parse_request argv
