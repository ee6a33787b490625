-- ===== src/Provider/Requests.antt =====
-- What each member of `ProxyProvider` reads of the data of a successful answer to its request.
pub mod Gas
use mx_sdk_cpp.Common.{
  ℕ, ◌<◌, ◌^◌, ◌≡◌, ◌↔◌, refl, true, false, List, [], ◌∷◌, ◌++◌, Bytes, codes, some, All, ok,
}
use mx_sdk_cpp.Common.Digits.{IsDecimalDigit}
use mx_sdk_cpp.Libraries.Integers.{IntegerLib, IntegerLaws}
use mx_sdk_cpp.Libraries.Json.{JsonLib}
use mx_sdk_cpp.Libraries.JsonTree.{
  JsonTreeLib, JsonTreeLaws, Tree, number, text, lookup, entries, is_object,
}
use mx_sdk_cpp.Libraries.Http.{HttpLib}
use mx_sdk_cpp.Wrappers.Http.{HttpResult, application_json}
use mx_sdk_cpp.Wrappers.Http
use mx_sdk_cpp.Wrappers.JsonPaths.{
  lookup_path, lookup_path-step, text_at-lookup_path, number_at-lookup_path,
  number64_at-lookup_path,
}
use mx_sdk_cpp.BigUInt.Arithmetic.{from_string_digits}
use mx_sdk_cpp.Account.Address.{Address}
use mx_sdk_cpp.Account.State.{from_parts}
use mx_sdk_cpp.Transactions.Transaction.{Transaction}
use mx_sdk_cpp.Transactions.Transaction.Serialize.{serialize}
use mx_sdk_cpp.Provider.BalanceMap.{Balances}
use mx_sdk_cpp.Provider.BalanceMap.Order.{IsSorted}
use mx_sdk_cpp.Provider.BalanceMap.Order
use mx_sdk_cpp.Provider.BalanceMap.Fill.{Lists, read_balances-Lists}
use mx_sdk_cpp.Provider.BalanceMap.Listed.{Has, IsDistinct, first-Has}
use mx_sdk_cpp.Provider.Response.{require_attribute, require_attribute-found}
use mx_sdk_cpp.Provider.Answers.{HasError, succeeds, get_pay_load-data}
use mx_sdk_cpp.Provider.{
  ProxyProvider, get_pay_load, require_in, get_account, send, get_transaction_status,
  get_esdt_balance, get_network_config, get_all_esdt_balances,
}

module _ (json : JsonTreeLib) (laws : JsonTreeLaws json) where
  -- A received text with an empty error or none, a code of success, and data.
  pub record IsAnswer (res : HttpResult) (d : Tree) : Type 0 where
    pub parsed : json.Json
    pub code : Bytes
    pub received : res.error ≡ false
    pub parse_body : json.parse res.body ≡ ok parsed
    pub no_error : HasError (laws.view parsed) []
    pub has_code : lookup (laws.view parsed) (codes "code") ≡ some (text code)
    pub accepted : succeeds [] code ≡ true
    pub has_data : lookup (laws.view parsed) (codes "data") ≡ some d

  pub get_pay_load-IsAnswer :
      (res : HttpResult) (d : Tree)
      → IsAnswer res d
      → (payload : json.Json) × (get_pay_load json res ≡ ok payload) × (laws.view payload ≡ d)
  get_pay_load-IsAnswer res d a =
      get_pay_load-data json laws res a.parsed [] a.code d (a.received, a.parse_body, a.no_error)
        a.has_code a.accepted a.has_data

  module _ (j : json.Json) (k key : Bytes) (t : Tree)
      (h : lookup_path (laws.view j) (k ∷ key ∷ []) ≡ some t) where
    pub require_outer : require_attribute json j k ≡ ok tt
    require_outer =
        let (v, found, rest) = lookup_path-step (laws.view j) k (key ∷ []) t h in
        require_attribute-found json laws j k v found

    pub require_in-found : require_in json j k key ≡ ok tt
    unfolding require_in
    require_in-found =
        let (v, found, rest) = lookup_path-step (laws.view j) k (key ∷ []) t h in
        let (u, inner, _) = lookup_path-step v key [] t rest in
        let (i, reached, viewed) = laws.at_view j k v found in
        rw reached (require_attribute-found json laws i key u (rw viewed inner))

  module _ (lib : IntegerLib) (integers : IntegerLaws lib) (http : HttpLib)
      (p : ProxyProvider) where
    pub get_account-IsAnswer :
        (address : Address) (d : Tree) (balance : Bytes) (nonce : ℕ)
        → IsAnswer (Http.get http p.url (codes "/address/" ++ address.bech32_address)) d
        → lookup_path d (codes "account" ∷ codes "balance" ∷ []) ≡ some (text balance)
        → lookup_path d (codes "account" ∷ codes "nonce" ∷ []) ≡ some (number nonce)
        → All IsDecimalDigit balance
        → nonce < 2 ^ 64
        → get_account json http p lib address
          ≡ ok (from_parts address (record { value = balance }) nonce)
    unfolding get_account
    get_account-IsAnswer address d balance nonce a has_balance has_nonce digits small =
        let (j, reached, viewed) = get_pay_load-IsAnswer _ d a in
        let b : lookup_path (laws.view j) (codes "account" ∷ codes "balance" ∷ [])
            ≡ some (text balance) =
          rw viewed has_balance in
        let n : lookup_path (laws.view j) (codes "account" ∷ codes "nonce" ∷ [])
            ≡ some (number nonce) =
          rw viewed has_nonce in
        rw (
          reached,
          require_outer j (codes "account") (codes "balance") (text balance) b,
          require_in-found j (codes "account") (codes "balance") (text balance) b,
          require_in-found j (codes "account") (codes "nonce") (number nonce) n,
          text_at-lookup_path json laws j (codes "account" ∷ codes "balance" ∷ []) balance b,
          number64_at-lookup_path json laws j (codes "account" ∷ codes "nonce" ∷ []) nonce small n,
          from_string_digits lib integers balance digits,
        )

    get_esdt_balance-IsAnswer :
        (address : Address) (token : Bytes) (d : Tree) (balance : Bytes)
        → IsAnswer
            (Http.get http p.url
              (codes "/address/" ++ address.bech32_address ++ codes "/esdt/" ++ token))
            d
        → lookup_path d (codes "tokenData" ∷ codes "balance" ∷ []) ≡ some (text balance)
        → All IsDecimalDigit balance
        → get_esdt_balance json http p lib address token ≡ ok (record { value = balance })
    unfolding get_esdt_balance
    get_esdt_balance-IsAnswer address token d balance a has digits =
        let (j, reached, viewed) = get_pay_load-IsAnswer _ d a in
        let b : lookup_path (laws.view j) (codes "tokenData" ∷ codes "balance" ∷ [])
            ≡ some (text balance) =
          rw viewed has in
        rw (
          reached,
          require_outer j (codes "tokenData") (codes "balance") (text balance) b,
          require_in-found j (codes "tokenData") (codes "balance") (text balance) b,
          text_at-lookup_path json laws j (codes "tokenData" ∷ codes "balance" ∷ []) balance b,
          from_string_digits lib integers balance digits,
        )

    -- Given the laws of the JSON library and of the class `integer`: where the network answers
    -- with success and with an object `esdts` whose entries hold tokens and amounts of decimal
    -- digits, each token once, the balances are read, in increasing order of the tokens, and have
    -- a token with an amount exactly where the answer has.
    pub get_all_esdt_balances-IsAnswer :
        (address : Address) (d es : Tree) (amounts : List (Bytes × Bytes))
        → IsAnswer
            (Http.get http p.url (codes "/address/" ++ address.bech32_address ++ codes "/esdt"))
            d
        → lookup d (codes "esdts") ≡ some es
        → is_object es ≡ true
        → Lists (entries es) amounts
        → IsDistinct amounts
        → (out : Balances) × (get_all_esdt_balances json http p lib address ≡ ok out)
          × IsSorted out
          × ((token amount : Bytes)
              → (Order.lookup out token ≡ some (record { value = amount }))
                ↔ Has amounts token amount)
    unfolding get_all_esdt_balances
    get_all_esdt_balances-IsAnswer address d es amounts a has object lists distinct =
        let (j, reached, viewed) = get_pay_load-IsAnswer _ d a in
        let found : lookup (laws.view j) (codes "esdts") ≡ some es = rw viewed has in
        let (inner, at, inner_viewed) = laws.at_view j (codes "esdts") es found in
        let (out, done, sorted, looked) =
          read_balances-Lists json laws lib integers (json.items inner) amounts []
            (rw (laws.items_view inner (rw inner_viewed object), inner_viewed) lists) tt in
        (
          out,
          rw (reached, require_attribute-found json laws j (codes "esdts") es found, at) done,
          sorted,
          λ token amount. rw (looked token) (first-Has amounts token amount distinct),
        )

  module _ (http : HttpLib) (p : ProxyProvider) where
    get_transaction_status-IsAnswer :
        (tx_hash : Bytes) (d : Tree) (status : Bytes)
        → IsAnswer (Http.get http p.url (codes "/transaction/" ++ tx_hash ++ codes "/status")) d
        → lookup d (codes "status") ≡ some (text status)
        → get_transaction_status json http p tx_hash ≡ ok (record { status = status })
    unfolding get_transaction_status
    get_transaction_status-IsAnswer tx_hash d status a has =
        let (j, reached, viewed) = get_pay_load-IsAnswer _ d a in
        let found : lookup (laws.view j) (codes "status") ≡ some (text status) = rw viewed has in
        rw (
          reached,
          require_attribute-found json laws j (codes "status") (text status) found,
          text_at-lookup_path json laws j (codes "status" ∷ []) status
              (rw (found, lookup_path) refl),
        )

    -- Given the laws of the JSON library: where a transaction is serialized and the network
    -- answers the text with success and a hash, `send` returns the hash.
    pub send-IsAnswer :
        (lib : JsonLib) (t : Transaction) (message : Bytes) (d : Tree) (hash : Bytes)
        → serialize lib t ≡ ok message
        → IsAnswer (Http.post http p.url (codes "/transaction/send") message application_json) d
        → lookup d (codes "txHash") ≡ some (text hash)
        → send json http p lib t ≡ ok hash
    unfolding send
    send-IsAnswer lib t message d hash written a has =
        let (j, reached, viewed) = get_pay_load-IsAnswer _ d a in
        let found : lookup (laws.view j) (codes "txHash") ≡ some (text hash) = rw viewed has in
        rw (
          written,
          reached,
          require_attribute-found json laws j (codes "txHash") (text hash) found,
          text_at-lookup_path json laws j (codes "txHash" ∷ []) hash (rw (found, lookup_path) refl),
        )
