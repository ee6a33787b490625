-- ===== src/Provider/Answers.antt =====
-- What the members of `ProxyProvider` return for an answer of the network.
use mx_sdk_cpp.Common.{
  ◌≡◌, ◌⊎◌, inl, inr, refl, Bool, true, false, [], ◌∷◌, ◌++◌, Bytes, codes, is_empty, bytes_eq,
  ◌&&◌, guard, none, some, Error, ok, err, invalid_argument, runtime_error, ◌>>◌, if◌then◌else◌,
}
use mx_sdk_cpp.Common.Texts.{contains}
use mx_sdk_cpp.Libraries.JsonTree.{JsonTreeLib, JsonTreeLaws, Tree, text, lookup}
use mx_sdk_cpp.Wrappers.Http.{HttpResult}
use mx_sdk_cpp.Wrappers.OrderedJson.{error_msg_json_key_not_found, error_msg_json_serialized}
use mx_sdk_cpp.Provider.Response.{
  request_failed, error_text, get_error, get_code, check_successful_operation, get_data,
  require_attribute-found, parse_response,
}
use mx_sdk_cpp.Provider.{parse, get_pay_load}

abbrev missing : Bytes → Error
missing key = invalid_argument (error_msg_json_key_not_found ++ key)

-- The error text of an answer: the entry, which may be empty, or nothing where there is no entry.
abbrev pub HasError : Tree → Bytes → Type 0
HasError t e =
    (lookup t (codes "error") ≡ some (text e)) ⊎ ((lookup t (codes "error") ≡ none) × (e ≡ []))

abbrev pub succeeds : Bytes → Bytes → Bool
succeeds e c = is_empty e && contains (codes "success") c

module _ (json : JsonTreeLib) (laws : JsonTreeLaws json) where
  get_error-HasError :
      (j : json.Json) (e : Bytes) → HasError (laws.view j) e → get_error json j ≡ ok e
  unfolding get_error error_text
  get_error-HasError j e (inl found) =
      let (v, reached, viewed) = laws.at_view j (codes "error") (text e) found in
      rw
        (
          laws.contains_view j (codes "error"),
          found,
          reached,
          laws.equals_text_view v [],
          viewed,
          laws.as_text_view v e viewed,
        )
        (either e)
    where
      either : (s : Bytes) → (if bytes_eq s [] then ok [] else ok s) ≡ ok s
      either [] = refl
      either (c ∷ s) = refl
  get_error-HasError j e (inr (absent, empty)) =
      rw (laws.contains_view j (codes "error"), absent, empty)

  get_code-text :
      (j : json.Json) (c : Bytes)
      → lookup (laws.view j) (codes "code") ≡ some (text c)
      → get_code json j ≡ ok c
  unfolding get_code
  get_code-text j c found =
      let (v, reached, viewed) = laws.at_view j (codes "code") (text c) found in
      rw (
        require_attribute-found json laws j (codes "code") (text c) found,
        reached,
        laws.as_text_view v c viewed,
      )

  check-text :
      (j : json.Json) (e c : Bytes)
      → HasError (laws.view j) e
      → lookup (laws.view j) (codes "code") ≡ some (text c)
      → check_successful_operation json j ≡ guard (succeeds e c) (request_failed c e)
  unfolding check_successful_operation
  check-text j e c has found = rw (get_error-HasError j e has, get_code-text j c found)

  module _ (res : HttpResult) where
    get_pay_load-parsed :
        (j : json.Json)
        → res.error ≡ false
        → json.parse res.body ≡ ok j
        → get_pay_load json res ≡ (check_successful_operation json j >> get_data json j)
    unfolding get_pay_load parse parse_response
    get_pay_load-parsed j received parsed = rw (received, parsed)

    -- A text that is received, and read as a value with an error text or none.
    abbrev pub IsRead : json.Json → Bytes → Type 0
    IsRead j e = (res.error ≡ false) × (json.parse res.body ≡ ok j) × HasError (laws.view j) e

    -- The first thing that is wrong with an answer, and its exception.
    pub data Refuses : Error → Type 0 where
      no_answer : res.error ≡ true → Refuses (runtime_error res.status_message)
      no_json :
          (x : Error)
          → res.error ≡ false
          → json.parse res.body ≡ err x
          → Refuses (invalid_argument (error_msg_json_serialized ++ res.body))
      no_code :
          (j : json.Json) (e : Bytes)
          → IsRead j e
          → lookup (laws.view j) (codes "code") ≡ none
          → Refuses (missing (codes "code"))
      no_success :
          (j : json.Json) (e c : Bytes)
          → IsRead j e
          → lookup (laws.view j) (codes "code") ≡ some (text c)
          → succeeds e c ≡ false
          → Refuses (request_failed c e)
      no_data :
          (j : json.Json) (e c : Bytes)
          → IsRead j e
          → lookup (laws.view j) (codes "code") ≡ some (text c)
          → succeeds e c ≡ true
          → lookup (laws.view j) (codes "data") ≡ none
          → Refuses (missing (codes "data"))

    pub get_pay_load-data :
        (j : json.Json) (e c : Bytes) (d : Tree)
        → IsRead j e
        → lookup (laws.view j) (codes "code") ≡ some (text c)
        → succeeds e c ≡ true
        → lookup (laws.view j) (codes "data") ≡ some d
        → (payload : json.Json) × (get_pay_load json res ≡ ok payload) × (laws.view payload ≡ d)
    unfolding get_data
    get_pay_load-data j e c d (received, parsed, has) code accepted found =
        let (payload, reached, viewed) = laws.at_view j (codes "data") d found in
        (
          payload,
          rw
              (
                get_pay_load-parsed j received parsed,
                check-text j e c has code,
                accepted,
                require_attribute-found json laws j (codes "data") d found,
              )
              reached,
          viewed,
        )
