-- ===== src/Transactions/Builders.antt =====
-- src/transaction/itransaction_builder.cpp, src/transaction/transaction_builders.cpp and the headers
-- include/transaction/itransaction_builder.h, transaction_builders.h and transaction_builder_input.h.
pub mod Factory
pub mod Built
pub mod BuiltMulti
use mx_sdk_cpp.Common.{
  ℕ, List, [], ◌∷◌, Bytes, length, ◌==◌, if◌then◌else◌, Option, none, some, Result, ok, ◌>>=◌,
}
use mx_sdk_cpp.Libraries.Integers.{IntegerLib}
use mx_sdk_cpp.Libraries.Bech32.{Bech32Lib}
use mx_sdk_cpp.Libraries.Json.{JsonLib}
use mx_sdk_cpp.Libraries.Crypto.{CryptoLib}
use mx_sdk_cpp.BigUInt.{BigUInt, from_u64}
use mx_sdk_cpp.Account.Address.{Address}
use mx_sdk_cpp.SmartContracts.{ContractCall}
use mx_sdk_cpp.Transactions.TokenPayment.{TokenPayment}
use mx_sdk_cpp.Transactions.Payload.Transfer
use mx_sdk_cpp.Transactions.Payload.NftTransfer
use mx_sdk_cpp.Transactions.Payload.MultiTransfer
use mx_sdk_cpp.Transactions.Gas.{
  GasEstimator, for_egld_transfer, for_esdt_transfer, for_esdt_nft_transfer,
  for_multi_esdt_nft_transfer,
}
use mx_sdk_cpp.Transactions.Signer.{from_seed}
use mx_sdk_cpp.Transactions.Transaction.{
  Transaction, make_transaction, default_gas_limit, default_version,
}
use mx_sdk_cpp.Transactions.Transaction.Sign.{sign}

pub record TransactionBuilderInput : Type 0 where
  pub nonce : ℕ
  pub value : BigUInt
  pub sender : Address
  pub receiver : Address
  pub data_text : Bytes
  pub gas_price : ℕ
  pub chain_id : Bytes
  pub gas_estimator : GasEstimator
  pub gas_limit : ℕ

-- m_version and m_options of ITransactionBuilder
pub record ITransactionBuilder : Type 0 where
  pub version : ℕ
  pub options : Option ℕ

-- The constructor, withVersion and withOptions.
abbrev pub default_builder : ITransactionBuilder
default_builder = record { version = default_version; options = none }

unfoldable pub with_version : ITransactionBuilder → ℕ → ITransactionBuilder
with_version b v = record b { version = v }

unfoldable pub with_options : ITransactionBuilder → ℕ → ITransactionBuilder
with_options b o = record b { options = some o }

-- stringToBytesPtr
abbrev pub string_to_bytes_ptr : Bytes → Option Bytes
string_to_bytes_ptr [] = none
string_to_bytes_ptr (c ∷ s) = some (c ∷ s)

-- What a token builder adds to the members of ITransactionBuilder: the call and what is paid.
pub record TokenBuilder {ℓ} (Payment : Type ℓ) : Type ℓ where
  pub base : ITransactionBuilder
  pub contract_call : ContractCall
  pub tx_input : TransactionBuilderInput
  pub paid : Payment

-- withContractCall
unfoldable pub with_contract_call {ℓ} :
    {P : Type ℓ} → TokenBuilder P → ContractCall → TokenBuilder P
with_contract_call b c = record b { contract_call = c }

-- The transaction of a token transfer: no value, and neither names nor a signature.
abbrev token_transaction :
    ITransactionBuilder → TransactionBuilderInput → Address → ℕ → Bytes → Transaction
token_transaction base input receiver gas_limit payload =
    make_transaction input.nonce (from_u64 0) receiver input.sender none none input.gas_price
      gas_limit (string_to_bytes_ptr payload) none input.chain_id base.version base.options

-- TransactionEGLDTransferBuilder::build
unfoldable pub build_egld : ITransactionBuilder → TransactionBuilderInput → Transaction
build_egld base input =
    let estimated = for_egld_transfer input.gas_estimator (length input.data_text) in
    let gas_limit = if input.gas_limit == default_gas_limit then estimated else input.gas_limit in
    make_transaction input.nonce input.value input.receiver input.sender none none input.gas_price
      gas_limit (string_to_bytes_ptr input.data_text) none input.chain_id base.version base.options

module _ (ints : IntegerLib) where
  -- TransactionESDTBuilder::build
  unfoldable pub build_esdt : TokenBuilder TokenPayment → Result Transaction
  build_esdt b = do
    created ← Transfer.create ints
    payload ←
        Transfer.build ints
          (Transfer.with_contract_call (Transfer.set_payment created b.paid) b.contract_call)
    let gas_limit = for_esdt_transfer b.tx_input.gas_estimator (length payload)
    ok (token_transaction b.base b.tx_input b.tx_input.receiver gas_limit payload)

  -- TransactionESDTNFTBuilder::build; the receiver is the sender.
  unfoldable pub build_esdt_nft : Bech32Lib → TokenBuilder TokenPayment → Result Transaction
  build_esdt_nft bech32 b = do
    created ← NftTransfer.create ints
    payload ← NftTransfer.build ints bech32 (
        NftTransfer.with_contract_call
          (NftTransfer.set_destination (NftTransfer.set_payment created b.paid) b.tx_input.receiver)
          b.contract_call)
    let gas_limit = for_esdt_nft_transfer b.tx_input.gas_estimator (length payload)
    ok (token_transaction b.base b.tx_input b.tx_input.sender gas_limit payload)

  -- TransactionMultiESDTNFTBuilder::build; the receiver is the sender.
  unfoldable pub build_multi_esdt_nft :
      Bech32Lib → TokenBuilder (List TokenPayment) → Result Transaction
  build_multi_esdt_nft bech32 b = do
    payload ← MultiTransfer.build ints bech32 (
        MultiTransfer.with_contract_call
          (MultiTransfer.set_destination (MultiTransfer.set_payments MultiTransfer.create b.paid)
            b.tx_input.receiver)
          b.contract_call)
    let gas_limit =
        for_multi_esdt_nft_transfer b.tx_input.gas_estimator (length payload) (length b.paid)
    ok (token_transaction b.base b.tx_input b.tx_input.sender gas_limit payload)

-- buildSigned, over the outcome of the builder's `build`
unfoldable pub build_signed : JsonLib → CryptoLib → Result Transaction → Bytes → Result Transaction
build_signed json crypto built seed = do
  signer ← from_seed crypto seed
  tx ← built
  sign json crypto tx signer
