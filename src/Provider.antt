-- ===== src/Provider.antt =====
-- src/provider/proxyprovider.cpp and include/provider/proxyprovider.h. Each member function makes a
-- client of the url and sends one request.
pub mod Response
pub mod Status
pub mod BalanceMap
pub mod Answers
pub mod Requests
use mx_sdk_cpp.Common.{
  ℕ, List, [], ◌∷◌, ◌++◌, Bytes, codes, if◌then◌else◌, Result, ok, err, runtime_error, ◌>>=◌, ◌>>◌,
}
use mx_sdk_cpp.Libraries.Integers.{IntegerLib}
use mx_sdk_cpp.Libraries.Json.{JsonLib}
use mx_sdk_cpp.Libraries.JsonTree.{JsonTreeLib}
use mx_sdk_cpp.Libraries.Http.{HttpLib}
use mx_sdk_cpp.Wrappers.Http.{HttpResult, application_json}
use mx_sdk_cpp.Wrappers.Http
use mx_sdk_cpp.Wrappers.JsonPaths.{at_path, text_at, number_at, number64_at}
use mx_sdk_cpp.BigUInt.{BigUInt, from_string}
use mx_sdk_cpp.Account.Address.{Address}
use mx_sdk_cpp.Account.State.{Account, from_parts}
use mx_sdk_cpp.Transactions.Gas.{NetworkConfig}
use mx_sdk_cpp.Transactions.Transaction.{Transaction}
use mx_sdk_cpp.Transactions.Transaction.Serialize.{serialize}
use mx_sdk_cpp.Provider.Response.{
  require_attribute, parse_response, check_successful_operation, get_data,
}
use mx_sdk_cpp.Provider.Status.{TransactionStatus}
use mx_sdk_cpp.Provider.BalanceMap.{Balances, read_balances}

-- m_url
pub record ProxyProvider : Type 0 where
  pub url : Bytes

-- internal::parse and internal::getPayLoad
module _ (json : JsonTreeLib) where
  unfoldable pub parse : HttpResult → Result json.Json
  parse res =
      if res.error then err (runtime_error res.status_message) else parse_response json res.body

  unfoldable pub get_pay_load : HttpResult → Result json.Json
  unfolding parse
  get_pay_load res = do
    response ← parse res
    check_successful_operation json response
    get_data json response

  -- `requireAttribute(data["a"], key)`
  unfoldable pub require_in : json.Json → Bytes → Bytes → Result (Unit {0})
  require_in j a key = do inner ← json.at j a; require_attribute json inner key

module _ (json : JsonTreeLib) (http : HttpLib) (p : ProxyProvider) where
  unfoldable pub get_account : IntegerLib → Address → Result Account
  unfolding get_pay_load require_in
  get_account lib address = do
    payload ← get_pay_load json (Http.get http p.url (codes "/address/" ++ address.bech32_address))
    require_attribute json payload (codes "account")
    require_in json payload (codes "account") (codes "balance")
    require_in json payload (codes "account") (codes "nonce")
    balance ← text_at json payload (codes "account" ∷ codes "balance" ∷ [])
    nonce ← number64_at json payload (codes "account" ∷ codes "nonce" ∷ [])
    amount ← from_string lib balance
    ok (from_parts address amount nonce)

  unfoldable pub send : JsonLib → Transaction → Result Bytes
  unfolding get_pay_load
  send lib transaction = do
    message ← serialize lib transaction
    payload ←
        get_pay_load json
          (Http.post http p.url (codes "/transaction/send") message application_json)
    require_attribute json payload (codes "txHash")
    text_at json payload (codes "txHash" ∷ [])

  unfoldable pub get_transaction_status : Bytes → Result TransactionStatus
  unfolding get_pay_load
  get_transaction_status tx_hash = do
    payload ←
        get_pay_load json
          (Http.get http p.url (codes "/transaction/" ++ tx_hash ++ codes "/status"))
    require_attribute json payload (codes "status")
    status ← text_at json payload (codes "status" ∷ [])
    ok (record { status = status })

  unfoldable pub get_esdt_balance : IntegerLib → Address → Bytes → Result BigUInt
  unfolding get_pay_load require_in
  get_esdt_balance lib address token = do
    payload ← get_pay_load json (
        Http.get http p.url
          (codes "/address/" ++ address.bech32_address ++ codes "/esdt/" ++ token))
    require_attribute json payload (codes "tokenData")
    require_in json payload (codes "tokenData") (codes "balance")
    balance ← text_at json payload (codes "tokenData" ∷ codes "balance" ∷ [])
    from_string lib balance

  unfoldable pub get_all_esdt_balances : IntegerLib → Address → Result Balances
  unfolding get_pay_load
  get_all_esdt_balances lib address = do
    payload ←
        get_pay_load json
          (Http.get http p.url (codes "/address/" ++ address.bech32_address ++ codes "/esdt"))
    require_attribute json payload (codes "esdts")
    esdts ← json.at payload (codes "esdts")
    read_balances json lib (json.items esdts) []

  unfoldable pub get_network_config : Result NetworkConfig
  unfolding get_pay_load require_in
  get_network_config = do
    payload ← get_pay_load json (Http.get http p.url (codes "/network/config"))
    require_attribute json payload (codes "config")
    require_in json payload (codes "config") (codes "erd_chain_id")
    require_in json payload (codes "config") (codes "erd_gas_per_data_byte")
    require_in json payload (codes "config") (codes "erd_min_gas_limit")
    require_in json payload (codes "config") (codes "erd_min_gas_price")
    chain_id ← text_at json payload (codes "config" ∷ codes "erd_chain_id" ∷ [])
    gas_per_data_byte ← number_at json payload (codes "config" ∷ codes "erd_gas_per_data_byte" ∷ [])
    min_gas_limit ← number_at json payload (codes "config" ∷ codes "erd_min_gas_limit" ∷ [])
    min_gas_price ← number64_at json payload (codes "config" ∷ codes "erd_min_gas_price" ∷ [])
    ok (record {
      chain_id = chain_id;
      gas_per_data_byte = gas_per_data_byte;
      min_gas_limit = min_gas_limit;
      min_gas_price = min_gas_price;
    })
