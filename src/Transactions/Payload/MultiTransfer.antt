-- ===== src/Transactions/Payload/MultiTransfer.antt =====
-- MultiESDTNFTTransferPayloadBuilder.
use mx_sdk_cpp.Common.{List, [], ◌∷◌, ◌++◌, Bytes, codes, length, Result, ok, ◌>>=◌}
use mx_sdk_cpp.Libraries.Integers.{IntegerLib}
use mx_sdk_cpp.Libraries.Bech32.{Bech32Lib}
use mx_sdk_cpp.BigUInt.{from_u64}
use mx_sdk_cpp.Account.Address.{Address, from_bech32}
use mx_sdk_cpp.SmartContracts.{
  ScArguments, ContractCall, no_arguments, from_function, add_string, add_big_uint, add_address,
  as_on_data, call_on_data,
}
use mx_sdk_cpp.Transactions.TokenPayment.{TokenPayment}

pub record MultiEsdtNftTransferPayloadBuilder : Type 0 where
  pub payments : List TokenPayment
  pub destination : Bytes
  pub contract_call : ContractCall

-- The constructor.
unfoldable pub create : MultiEsdtNftTransferPayloadBuilder
create = record { payments = []; destination = []; contract_call = from_function [] }

unfoldable pub set_payments :
    MultiEsdtNftTransferPayloadBuilder → List TokenPayment → MultiEsdtNftTransferPayloadBuilder
set_payments b ps = record b { payments = ps }

unfoldable pub set_destination :
    MultiEsdtNftTransferPayloadBuilder → Address → MultiEsdtNftTransferPayloadBuilder
set_destination b a = record b { destination = a.bech32_address }

unfoldable pub with_contract_call :
    MultiEsdtNftTransferPayloadBuilder → ContractCall → MultiEsdtNftTransferPayloadBuilder
with_contract_call b c = record b { contract_call = c }

-- The loop over the payments.
unfoldable pub add_payments : IntegerLib → ScArguments → List TokenPayment → Result ScArguments
add_payments lib args [] = ok args
add_payments lib args (p ∷ ps) = do
  let with_token = add_string args p.token_identifier
  with_nonce ← add_big_uint lib with_token (from_u64 p.nonce)
  with_value ← add_big_uint lib with_nonce p.value
  add_payments lib with_value ps

unfoldable pub build : IntegerLib → Bech32Lib → MultiEsdtNftTransferPayloadBuilder → Result Bytes
unfolding add_payments
build lib bech32 b = do
  destination ← from_bech32 bech32 b.destination
  let with_destination = add_address no_arguments destination
  with_count ← add_big_uint lib with_destination (from_u64 (length b.payments))
  args ← add_payments lib with_count b.payments
  ok (codes "MultiESDTNFTTransfer" ++ as_on_data args ++ call_on_data b.contract_call)
