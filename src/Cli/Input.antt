-- ===== src/Cli/Input.antt =====
-- cli/inputhandler/wrappers/transaction_input_wrapper.cpp and its header, and createTransaction of
-- cli/cli_utility.cpp, which reads every member.
pub mod Refused
use mx_sdk_cpp.Common.{
  ℕ, ◌%◌, ◌^◌, Bool, true, false, not, [], Bytes, codes, ◌==◌, Option, none, some, if◌then◌else◌,
  Result, ok, ◌>>=◌,
}
use mx_sdk_cpp.Libraries.Integers.{IntegerLib}
use mx_sdk_cpp.Libraries.Bech32.{Bech32Lib}
use mx_sdk_cpp.Libraries.OptionParser.{ParseResult}
use mx_sdk_cpp.BigUInt.{BigUInt, from_u64, from_string}
use mx_sdk_cpp.Account.Address.{Address, from_bech32}
use mx_sdk_cpp.Transactions.Transaction.{Transaction, default_gas_limit, default_version}
use mx_sdk_cpp.Cli.Config.{Config}

module _ (input : ParseResult) where
  abbrev pub is_given : Bytes → Bool
  is_given name = not (input.count name == 0)

  -- getUserInputIfExists of `uint32_t`: read as a uint64_t, whose low 32 bits are kept
  unfoldable pub number_if_exists : Bytes → Result (Option ℕ)
  number_if_exists name =
      if is_given name then (do n ← input.as_u64 name; ok (some (n % 2 ^ 32))) else ok none

  -- getUserInputIfExists of `bytes`
  unfoldable pub bytes_if_exists : Bytes → Result (Option Bytes)
  bytes_if_exists name = if is_given name then (do s ← input.as_text name; ok (some s)) else ok none

  -- getUserInputOrDefault
  unfoldable pub number_or_default : Bytes → ℕ → Result ℕ
  number_or_default name default_value =
      if is_given name then input.as_u64 name else ok default_value

  unfoldable pub text_or_default : Bytes → Bytes → Result Bytes
  text_or_default name default_value =
      if is_given name then input.as_text name else ok default_value

  unfoldable pub get_nonce : Result ℕ
  unfolding number_or_default
  get_nonce = number_or_default (codes "nonce") 0

  unfoldable pub get_value : IntegerLib → Result BigUInt
  unfolding text_or_default from_u64
  get_value lib = do
    value ← text_or_default (codes "value") (from_u64 0).value
    from_string lib value

  unfoldable pub get_receiver : Bech32Lib → Result (Option Address)
  get_receiver lib =
      if is_given (codes "receiver")
      then (do
        text ← input.as_text (codes "receiver")
        receiver ← from_bech32 lib text
        ok (some receiver))
      else ok none

  unfoldable pub get_receiver_name : Result (Option Bytes)
  unfolding bytes_if_exists
  get_receiver_name = bytes_if_exists (codes "receiver-name")

  unfoldable pub get_sender_name : Result (Option Bytes)
  unfolding bytes_if_exists
  get_sender_name = bytes_if_exists (codes "sender-name")

  unfoldable pub get_gas_price : Result ℕ
  unfolding number_or_default
  get_gas_price = number_or_default (codes "gas-price") 0

  unfoldable pub get_gas_limit : Result ℕ
  unfolding number_or_default
  get_gas_limit = number_or_default (codes "gas-limit") default_gas_limit

  unfoldable pub get_data : Result (Option Bytes)
  unfolding bytes_if_exists
  get_data = bytes_if_exists (codes "data")

  unfoldable pub get_version : Result ℕ
  unfolding number_or_default
  get_version = number_or_default (codes "version") default_version

  unfoldable pub get_options : Result (Option ℕ)
  unfolding number_if_exists
  get_options = number_if_exists (codes "options")

-- cli::utility::createTransaction
unfoldable pub create_transaction :
    IntegerLib → Bech32Lib → ParseResult → Config → Result Transaction
unfolding get_nonce get_value get_receiver get_receiver_name get_sender_name get_gas_price
    get_gas_limit get_data get_version get_options
create_transaction ints bech32 input config = do
  nonce ← get_nonce input
  value ← get_value input ints
  receiver ← get_receiver input bech32
  receiver_user_name ← get_receiver_name input
  sender_user_name ← get_sender_name input
  gas_price ← get_gas_price input
  gas_limit ← get_gas_limit input
  text ← get_data input
  version ← get_version input
  options ← get_options input
  ok (record {
    nonce = nonce;
    value = value;
    receiver_user_name = receiver_user_name;
    sender_user_name = sender_user_name;
    receiver = receiver;
    sender = none;
    gas_price = gas_price;
    gas_limit = gas_limit;
    chain_id = config.chain_id;
    version = version;
    data_field = text;
    signature = none;
    options = options;
  })
