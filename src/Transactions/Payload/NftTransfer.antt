-- ===== src/Transactions/Payload/NftTransfer.antt =====
-- ESDTNFTTransferPayloadBuilder.
use mx_sdk_cpp.Common.{[], ◌++◌, Bytes, codes, Result, ok, ◌>>=◌}
use mx_sdk_cpp.Libraries.Integers.{IntegerLib}
use mx_sdk_cpp.Libraries.Bech32.{Bech32Lib}
use mx_sdk_cpp.BigUInt.{from_u64}
use mx_sdk_cpp.Account.Address.{Address, from_bech32}
use mx_sdk_cpp.SmartContracts.{
  ContractCall, no_arguments, from_function, add_string, add_big_uint, add_address, as_on_data,
  call_on_data,
}
use mx_sdk_cpp.Transactions.TokenPayment.{TokenPayment, fungible_from_amount}

pub record EsdtNftTransferPayloadBuilder : Type 0 where
  pub payment : TokenPayment
  pub destination : Bytes
  pub contract_call : ContractCall

-- The constructor.
unfoldable pub create : IntegerLib → Result EsdtNftTransferPayloadBuilder
create lib = do
  p ← fungible_from_amount lib [] (codes "0") 0
  ok (record { payment = p; destination = []; contract_call = from_function [] })

unfoldable pub set_payment :
    EsdtNftTransferPayloadBuilder → TokenPayment → EsdtNftTransferPayloadBuilder
set_payment b p = record b { payment = p }

unfoldable pub set_destination :
    EsdtNftTransferPayloadBuilder → Address → EsdtNftTransferPayloadBuilder
set_destination b a = record b { destination = a.bech32_address }

unfoldable pub with_contract_call :
    EsdtNftTransferPayloadBuilder → ContractCall → EsdtNftTransferPayloadBuilder
with_contract_call b c = record b { contract_call = c }

unfoldable pub build : IntegerLib → Bech32Lib → EsdtNftTransferPayloadBuilder → Result Bytes
build lib bech32 b = do
  let with_token = add_string no_arguments b.payment.token_identifier
  with_nonce ← add_big_uint lib with_token (from_u64 b.payment.nonce)
  with_value ← add_big_uint lib with_nonce b.payment.value
  destination ← from_bech32 bech32 b.destination
  ok (
      codes "ESDTNFTTransfer"
      ++ as_on_data (add_address with_value destination)
      ++ call_on_data b.contract_call)
