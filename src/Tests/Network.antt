-- ===== src/Tests/Network.antt =====
-- The proxy's members at concrete answers.
use mx_sdk_cpp.Common.{
  ◌≡◌, ◌↔◌, some, refl, false, ◌&&◌, ◌||◌, List, [], ◌∷◌, ◌++◌, Bytes, codes, All, ok, inl, arith,
}
use mx_sdk_cpp.Common.Digits.{IsDecimalDigit}
use mx_sdk_cpp.Common.Int.{pos}
use mx_sdk_cpp.Libraries.JsonTree.{Tree, text}
use mx_sdk_cpp.Libraries.Http.{HttpLib, response}
use mx_sdk_cpp.Wrappers.Http.{HttpResult, application_json}
use mx_sdk_cpp.Wrappers.Http
use mx_sdk_cpp.Provider.{ProxyProvider, get_all_esdt_balances}
use mx_sdk_cpp.Provider.BalanceMap.{Balances}
use mx_sdk_cpp.Provider.BalanceMap.Order.{IsSorted}
use mx_sdk_cpp.Provider.BalanceMap.Order
use mx_sdk_cpp.Provider.BalanceMap.Listed.{Has, IsDistinct}
use mx_sdk_cpp.Common.Texts.{find}
use mx_sdk_cpp.Utils.ConvertBits.Quintets.{quintets}
use mx_sdk_cpp.Provider.Status.{
  TransactionStatus, is_pending, is_invalid, is_successful, is_executed, is_failed,
}
use mx_sdk_cpp.Provider.Status.Exclusive.{status_exclusive}
use mx_sdk_cpp.Provider.Requests.{IsAnswer, get_all_esdt_balances-IsAnswer}
use mx_sdk_cpp.Tests.Integers.{integers, integer_laws}
use mx_sdk_cpp.Tests.Payloads.{alice}
use mx_sdk_cpp.Tests.Trees.{object, json_tree, json_tree_laws}

abbrev pub proxy : ProxyProvider
proxy = record { url = codes "https://proxy" }

-- The answer is the path asked for, which `texts` pairs with what it stands for.
abbrev pub http : HttpLib
http = record {
  get = λ url path. response (pos 200) path;
  post = λ url path message content_type. response (pos 200) path;
  status_message = λ status. codes "OK";
}

abbrev pub success : Tree → Tree
success d =
    object (
      (codes "data", d) ∷ (codes "error", text []) ∷ (codes "code", text (codes "successful")) ∷ [])

abbrev amount : Bytes → Tree
amount s = object ((codes "balance", text s) ∷ [])

abbrev token_tree : Tree
token_tree =
    object ((codes "TOK-b", amount (codes "25")) ∷ (codes "TOK-a", amount (codes "300")) ∷ [])

abbrev balances_data : Tree
balances_data = object ((codes "esdts", token_tree) ∷ [])

abbrev balances_path : Bytes
balances_path = codes "/address/" ++ alice.bech32_address ++ codes "/esdt"

abbrev balances_texts : List (Bytes × Tree)
balances_texts = (balances_path, success balances_data) ∷ []

abbrev amounts : List (Bytes × Bytes)
amounts = (codes "TOK-b", codes "25") ∷ (codes "TOK-a", codes "300") ∷ []

balances-IsAnswer :
    IsAnswer
      (json_tree balances_texts)
      (json_tree_laws balances_texts)
      (Http.get http proxy.url balances_path)
      balances_data
unfolding json_tree_laws Http.get Http.wrapped_result quintets find
balances-IsAnswer = record {
  parsed = success balances_data;
  code = codes "successful";
  received = refl;
  parse_body = refl;
  no_error = inl refl;
  has_code = refl;
  accepted = refl;
  has_data = refl;
}

digits_25 : All IsDecimalDigit (codes "25")
digits_25 = ground arith

digits_300 : All IsDecimalDigit (codes "300")
digits_300 = ground arith

amounts-IsDistinct : IsDistinct amounts
amounts-IsDistinct = ((ground arith, tt), (tt, tt))

get_all_esdt_balances-IsAnswer_example :
    (out : Balances) × (get_all_esdt_balances (json_tree balances_texts) http proxy integers alice
      ≡ ok out)
    × IsSorted out
    × ((token amount : Bytes)
        → (Order.lookup out token ≡ some (record { value = amount })) ↔ Has amounts token amount)
unfolding json_tree_laws
get_all_esdt_balances-IsAnswer_example =
    get_all_esdt_balances-IsAnswer (json_tree balances_texts) (json_tree_laws balances_texts)
      integers integer_laws http proxy alice balances_data token_tree amounts balances-IsAnswer refl
      refl (refl, (refl, (digits_25, (refl, (refl, (digits_300, tt)))))) amounts-IsDistinct

abbrev refused_tree : Tree
refused_tree = object (
    (codes "data", object [])
    ∷ (codes "error", text (codes "bad nonce"))
    ∷ (codes "code", text (codes "bad_request"))
    ∷ [])

abbrev refused_texts : List (Bytes × Tree)
refused_texts = (codes "{answer}", refused_tree) ∷ []

abbrev refused_result : HttpResult
refused_result = record {
  status = pos 400;
  error = false;
  body = codes "{answer}";
  status_message = [];
}

abbrev failed_status : TransactionStatus
failed_status = record { status = codes "unsuccessful" }

status_exclusive_example :
    ((is_pending failed_status && (is_executed failed_status || is_failed failed_status)) ≡ false)
    × ((is_successful failed_status && is_failed failed_status) ≡ false)
    × ((is_executed failed_status && is_failed failed_status) ≡ is_invalid failed_status)
status_exclusive_example = status_exclusive failed_status
