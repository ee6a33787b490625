-- ===== src/Transactions/Payload/Transfer.antt =====
-- ESDTTransferPayloadBuilder.
use mx_sdk_cpp.Common.{[], ◌++◌, Bytes, codes, Result, ok, ◌>>=◌}
use mx_sdk_cpp.Libraries.Integers.{IntegerLib}
use mx_sdk_cpp.SmartContracts.{
  ContractCall, no_arguments, from_function, add_string, add_big_uint, as_on_data, call_on_data,
}
use mx_sdk_cpp.Transactions.TokenPayment.{TokenPayment, fungible_from_amount}

pub record EsdtTransferPayloadBuilder : Type 0 where
  pub payment : TokenPayment
  pub contract_call : ContractCall

-- The constructor.
unfoldable pub create : IntegerLib → Result EsdtTransferPayloadBuilder
create lib = do
  p ← fungible_from_amount lib [] (codes "0") 0
  ok (record { payment = p; contract_call = from_function [] })

unfoldable pub set_payment : EsdtTransferPayloadBuilder → TokenPayment → EsdtTransferPayloadBuilder
set_payment b p = record b { payment = p }

unfoldable pub with_contract_call :
    EsdtTransferPayloadBuilder → ContractCall → EsdtTransferPayloadBuilder
with_contract_call b c = record b { contract_call = c }

unfoldable pub build : IntegerLib → EsdtTransferPayloadBuilder → Result Bytes
build lib b = do
  let args = add_string no_arguments b.payment.token_identifier
  args' ← add_big_uint lib args b.payment.value
  ok (codes "ESDTTransfer" ++ as_on_data args' ++ call_on_data b.contract_call)
