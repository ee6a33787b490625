-- ===== src/Transactions/Builders/Factory.antt =====
-- src/transaction/transaction_factory.cpp and its header. The source hands builders out; the state that a
-- builder starts with is what a function returns here.
use mx_sdk_cpp.Common.{ℕ, List, [], Bytes, codes, Result, ok, ◌>>=◌}
use mx_sdk_cpp.Libraries.Integers.{IntegerLib}
use mx_sdk_cpp.Libraries.Bech32.{Bech32Lib}
use mx_sdk_cpp.BigUInt.{BigUInt, from_u64, from_string}
use mx_sdk_cpp.Account.Address.{Address, from_bech32}
use mx_sdk_cpp.SmartContracts.{from_function}
use mx_sdk_cpp.Transactions.TokenPayment.{TokenPayment}
use mx_sdk_cpp.Transactions.Payload.Properties.{EsdtProperties}
use mx_sdk_cpp.Transactions.Payload.Issue
use mx_sdk_cpp.Transactions.Gas.{NetworkConfig, GasEstimator}
use mx_sdk_cpp.Transactions.Transaction.{default_gas_limit}
use mx_sdk_cpp.Transactions.Builders.{TransactionBuilderInput, TokenBuilder, default_builder}

abbrev pub esdt_issuance_value : Bytes
esdt_issuance_value = codes "50000000000000000"

abbrev pub esdt_issuance_address : Bytes
esdt_issuance_address = codes "erd1qqqqqqqqqqqqqqqpqqqqqqqqqqqqqqqqqqqqqqqqqqqqqqqzllls8a5w6u"

abbrev pub esdt_issuance_gas_limit : ℕ
esdt_issuance_gas_limit = 60000000

pub record TransactionFactory : Type 0 where
  pub chain_id : Bytes
  pub gas_estimator : GasEstimator

-- The constructor.
unfoldable pub create : NetworkConfig → TransactionFactory
create config = record {
  chain_id = config.chain_id;
  gas_estimator = record { network_config = config };
}

-- The input of a transfer of tokens: no value, no data and no gas limit.
abbrev token_input : TransactionFactory → ℕ → Address → Address → ℕ → TransactionBuilderInput
token_input f nonce sender receiver gas_price = record {
  nonce = nonce;
  value = from_u64 0;
  sender = sender;
  receiver = receiver;
  data_text = [];
  gas_price = gas_price;
  chain_id = f.chain_id;
  gas_estimator = f.gas_estimator;
  gas_limit = default_gas_limit;
}

unfoldable pub create_egld_transfer :
    TransactionFactory → ℕ → BigUInt → Address → Address → ℕ → Bytes → TransactionBuilderInput
create_egld_transfer f nonce value sender receiver gas_price text = record {
  nonce = nonce;
  value = value;
  sender = sender;
  receiver = receiver;
  data_text = text;
  gas_price = gas_price;
  chain_id = f.chain_id;
  gas_estimator = f.gas_estimator;
  gas_limit = default_gas_limit;
}

module _ (ints : IntegerLib) (bech32 : Bech32Lib) where
  unfoldable pub create_esdt_issue :
      TransactionFactory
      → ℕ
      → Address
      → ℕ
      → Bytes
      → Bytes
      → BigUInt
      → ℕ
      → EsdtProperties
      → Result TransactionBuilderInput
  create_esdt_issue f nonce sender gas_price token ticker supply decimals properties = do
    text ← Issue.build ints (
        Issue.with_properties
          (Issue.set_num_of_decimals
            (Issue.set_initial_supply (Issue.set_ticker (Issue.create token) ticker) supply)
            decimals)
          properties)
    value ← from_string ints esdt_issuance_value
    receiver ← from_bech32 bech32 esdt_issuance_address
    ok (record {
      nonce = nonce;
      value = value;
      sender = sender;
      receiver = receiver;
      data_text = text;
      gas_price = gas_price;
      chain_id = f.chain_id;
      gas_estimator = f.gas_estimator;
      gas_limit = esdt_issuance_gas_limit;
    })

-- createESDTTransfer and createESDTNFTTransfer, which differ in the builder's type alone
unfoldable pub create_token_transfer :
    TransactionFactory → TokenPayment → ℕ → Address → Address → ℕ → TokenBuilder TokenPayment
create_token_transfer f payment nonce sender receiver gas_price = record {
  base = default_builder;
  contract_call = from_function [];
  tx_input = token_input f nonce sender receiver gas_price;
  paid = payment;
}

unfoldable pub create_multi_esdt_nft_transfer :
    TransactionFactory
    → List TokenPayment
    → ℕ
    → Address
    → Address
    → ℕ
    → TokenBuilder (List TokenPayment)
create_multi_esdt_nft_transfer f payments nonce sender receiver gas_price = record {
  base = default_builder;
  contract_call = from_function [];
  tx_input = token_input f nonce sender receiver gas_price;
  paid = payments;
}
