-- ===== src/Cli/Input/Refused.antt =====
-- The option `options` is declared as a `uint32_t` and read as a `uint64_t`.
use mx_sdk_cpp.Common.{◌≡◌, refl, true, List, Bytes, codes, ok, err, Error, >>=-err, first-err}
use mx_sdk_cpp.Libraries.Integers.{IntegerLib}
use mx_sdk_cpp.Libraries.Bech32.{Bech32Lib}
use mx_sdk_cpp.Libraries.OptionParser.{OptionsLib, OptionsLaws, ParseResult, number32}
use mx_sdk_cpp.Cli.Options
use mx_sdk_cpp.Cli.Config.{Config}
use mx_sdk_cpp.Cli.Input.{
  is_given, get_options, get_nonce, get_value, get_receiver, get_receiver_name, get_sender_name,
  get_gas_price, get_gas_limit, get_data, get_version, number_if_exists, create_transaction,
}

module _ (lib : OptionsLib) (laws : OptionsLaws lib) (argv : List Bytes) (input : ParseResult)
    (parsed : lib.parse Options.transaction argv ≡ ok input)
    (given : is_given input (codes "options") ≡ true) where
  get_options_refused : (e : Error) × (get_options input ≡ err e)
  unfolding get_options number_if_exists
  get_options_refused =
      let (e, refused) =
        laws.as_u64-other_kind Options.transaction argv input (codes "options") number32 parsed refl
          (λ h. cc) in
      (e, rw (given, refused))

  -- Given the laws of the options library: where the arguments of a new transaction are parsed and
  -- the option `options` is given, creating the transaction fails, whatever the configuration.
  pub create_transaction_refused :
      (ints : IntegerLib) (bech32 : Bech32Lib) (config : Config)
      → (e : Error) × (create_transaction ints bech32 input config ≡ err e)
  unfolding create_transaction
  create_transaction_refused ints bech32 config = >>=-err (get_nonce input) _ (λ nonce.
      >>=-err (get_value input ints) _ (λ value. >>=-err (get_receiver input bech32) _ (λ receiver.
        >>=-err (get_receiver_name input) _ (λ receiver_name.
          >>=-err (get_sender_name input) _ (λ sender_name.
            >>=-err (get_gas_price input) _ (λ gas_price.
              >>=-err (get_gas_limit input) _ (λ gas_limit. >>=-err (get_data input) _ (λ text.
                >>=-err (get_version input) _
                  (λ version. first-err (get_options input) _ get_options_refused)))))))))
