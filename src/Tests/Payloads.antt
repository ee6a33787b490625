-- ===== src/Tests/Payloads.antt =====
-- The data fields and the built transactions at concrete inputs.
use mx_sdk_cpp.Common.{◌≡◌, true, List, [], ◌∷◌, Bytes, codes, length, All, IsByte, ok, some, arith}
use mx_sdk_cpp.Utils.Hex.{string_to_hex}
use mx_sdk_cpp.Utils.ConvertBits.Quintets.{quintets}
use mx_sdk_cpp.BigUInt.{from_u64}
use mx_sdk_cpp.BigUInt.Arithmetic.{of_number, of_number-Represents}
use mx_sdk_cpp.Account.Address.{Address, hrp, from_bech32}
use mx_sdk_cpp.Account.Address.RoundTrip.{from_bech32_any_length}
use mx_sdk_cpp.SmartContracts.{ContractCall}
use mx_sdk_cpp.SmartContracts.Fields.{fields, call_fields}
use mx_sdk_cpp.Transactions.TokenPayment.{TokenPayment}
use mx_sdk_cpp.Transactions.Payload.Properties.{default_properties}
use mx_sdk_cpp.Transactions.Payload.Issue
use mx_sdk_cpp.Transactions.Payload.Decode.{Field, IsCall}
use mx_sdk_cpp.Transactions.Payload.DecodeMulti.{IsPayment}
use mx_sdk_cpp.Transactions.Payload.DecodeIssue.{Written, fields-issue}
use mx_sdk_cpp.Transactions.Gas.{default_mainnet, for_esdt_transfer, for_esdt_nft_transfer}
use mx_sdk_cpp.Transactions.Transaction.{Transaction}
use mx_sdk_cpp.Transactions.Builders.{
  TokenBuilder, TransactionBuilderInput, default_builder, build_esdt, build_esdt_nft,
}
use mx_sdk_cpp.Transactions.Builders.Built.{build_esdt-fields, build_esdt_nft-fields}
use mx_sdk_cpp.Tests.Integers.{integers, integer_laws}
use mx_sdk_cpp.Tests.Objects.{bech32, bech32_laws}
use mx_sdk_cpp.Tests.Texts.{key, key-IsByte}

abbrev pub alice : Address
alice = record { pk = key; bech32_address = bech32.encode hrp (quintets key) }

pub alice-from_bech32 : from_bech32 bech32 alice.bech32_address ≡ ok alice
alice-from_bech32 = from_bech32_any_length bech32 bech32_laws key key-IsByte (omega arith)

abbrev pub some_call : ContractCall
some_call = record { function = codes "buy"; args = record { args = codes "0a" ∷ [] } }

pub some_call-IsCall : IsCall some_call
some_call-IsCall = record { function_bytes = ground arith; args_valid = ground arith }

abbrev pub some_tokens : TokenPayment
some_tokens = record {
  token_identifier = codes "NFT-1234";
  value = of_number 300;
  nonce = 7;
  num_decimals = 0;
}

token-IsByte : All IsByte some_tokens.token_identifier
token-IsByte = ground arith

abbrev pub two_payments : List TokenPayment
two_payments = some_tokens ∷ some_tokens ∷ []

some_tokens-IsPayment : IsPayment some_tokens
some_tokens-IsPayment = record {
  units = 300;
  amount = of_number-Represents 300;
  token = token-IsByte;
}

pub two_payments-IsPayment : All IsPayment two_payments
two_payments-IsPayment = (some_tokens-IsPayment, (some_tokens-IsPayment, tt))

abbrev some_issue : Issue.EsdtIssuePayloadBuilder
some_issue = record {
  token = codes "Token";
  ticker = codes "TKN";
  initial_supply = of_number 1000;
  num_of_decimals = 2;
  esdt_properties = record default_properties { can_mint = true };
}

fields-issue_example :
    (data_field : Bytes) × (supply : Field 1000) × (decimals : Field 2) × (properties : List Bytes)
    × (Issue.build integers some_issue ≡ ok data_field)
    × (fields data_field
        ≡ codes "issue"
          ∷ string_to_hex some_issue.token
          ∷ string_to_hex some_issue.ticker
          ∷ supply.text
          ∷ decimals.text
          ∷ properties)
    × Written some_issue.esdt_properties properties
fields-issue_example =
    fields-issue integers integer_laws some_issue 1000 (of_number-Represents 1000) name-IsByte
      ticker-IsByte
  where
    name-IsByte : All IsByte (codes "Token")
    name-IsByte = ground arith

    ticker-IsByte : All IsByte (codes "TKN")
    ticker-IsByte = ground arith

abbrev pub some_input : TransactionBuilderInput
some_input = record {
  nonce = 5;
  value = from_u64 0;
  sender = alice;
  receiver = alice;
  data_text = [];
  gas_price = 1000000000;
  chain_id = codes "1";
  gas_estimator = record { network_config = default_mainnet };
  gas_limit = 0;
}

abbrev some_builder : TokenBuilder TokenPayment
some_builder = record {
  base = default_builder;
  contract_call = some_call;
  tx_input = some_input;
  paid = some_tokens;
}

build_esdt-fields_example :
    (t : Transaction) × (data_field : Bytes) × (value : Field 300) × (build_esdt integers
        some_builder
      ≡ ok t)
    × (t.data_field ≡ some data_field)
    × (fields data_field
        ≡ codes "ESDTTransfer"
          ∷ string_to_hex some_tokens.token_identifier
          ∷ value.text
          ∷ call_fields some_call)
    × (t.receiver ≡ some alice)
    × (t.sender ≡ some alice)
    × (t.value ≡ from_u64 0)
    × (t.gas_limit ≡ for_esdt_transfer some_input.gas_estimator (length data_field))
build_esdt-fields_example =
    build_esdt-fields integers integer_laws some_builder 300 (of_number-Represents 300) token-IsByte
      some_call-IsCall

build_esdt_nft-fields_example :
    (t : Transaction) × (data_field : Bytes) × (nonce : Field 7) × (value : Field 300)
    × (build_esdt_nft integers bech32 some_builder ≡ ok t)
    × (t.data_field ≡ some data_field)
    × (fields data_field
        ≡ codes "ESDTNFTTransfer"
          ∷ string_to_hex some_tokens.token_identifier
          ∷ nonce.text
          ∷ value.text
          ∷ string_to_hex alice.pk
          ∷ call_fields some_call)
    × (t.receiver ≡ some alice)
    × (t.sender ≡ some alice)
    × (t.value ≡ from_u64 0)
    × (t.gas_limit ≡ for_esdt_nft_transfer some_input.gas_estimator (length data_field))
build_esdt_nft-fields_example =
    build_esdt_nft-fields integers integer_laws some_builder 300 (of_number-Represents 300)
      token-IsByte some_call-IsCall bech32 alice-from_bech32 key-IsByte
