-- ===== src/Provider/Response.antt =====
-- src/provider/apiresponse.h.
use mx_sdk_cpp.Common.{
  ◌≡◌, some, ◌&&◌, [], ◌++◌, Bytes, codes, is_empty, if◌then◌else◌, Result, ok, Error,
  invalid_argument, runtime_error, ◌>>=◌, ◌>>◌, guard, rethrow,
}
use mx_sdk_cpp.Common.Texts.{contains}
use mx_sdk_cpp.Utils.Errors.{error_msg_http_request_failed, error_msg_reason}
use mx_sdk_cpp.Wrappers.OrderedJson.{error_msg_json_key_not_found, error_msg_json_serialized}
use mx_sdk_cpp.Libraries.JsonTree.{JsonTreeLib, JsonTreeLaws, Tree, lookup}

-- The exception of checkSuccessfulOperation.
abbrev pub request_failed : Bytes → Bytes → Error
request_failed code error =
    runtime_error (error_msg_http_request_failed ++ code ++ codes ". " ++ error_msg_reason ++ error)

module _ (json : JsonTreeLib) where
  unfoldable pub require_attribute : json.Json → Bytes → Result (Unit {0})
  require_attribute j attribute =
      guard (json.contains j attribute)
        (invalid_argument (error_msg_json_key_not_found ++ attribute))

  -- ErdGenericApiResponse(rawData), whose one member is the parsed value.
  unfoldable pub parse_response : Bytes → Result json.Json
  parse_response raw =
      rethrow (json.parse raw) (λ e. invalid_argument (error_msg_json_serialized ++ raw))

  -- `if (error != "") ret = error;`
  unfoldable pub error_text : json.Json → Result Bytes
  error_text error = if json.equals_text error [] then ok [] else json.as_text error

  unfoldable pub get_error : json.Json → Result Bytes
  unfolding error_text
  get_error j =
      if json.contains j (codes "error") then json.at j (codes "error") >>= error_text else ok []

  unfoldable pub get_code : json.Json → Result Bytes
  unfolding require_attribute
  get_code j = do
    require_attribute j (codes "code")
    code ← json.at j (codes "code")
    json.as_text code

  unfoldable pub check_successful_operation : json.Json → Result (Unit {0})
  unfolding get_error get_code
  check_successful_operation j = do
    error ← get_error j
    code ← get_code j
    guard (is_empty error && contains (codes "success") code) (request_failed code error)

  unfoldable pub get_data : json.Json → Result json.Json
  unfolding require_attribute
  get_data j = do require_attribute j (codes "data"); json.at j (codes "data")

pub require_attribute-found :
    (json : JsonTreeLib) (laws : JsonTreeLaws json) (j : json.Json) (k : Bytes) (t : Tree)
    → lookup (laws.view j) k ≡ some t
    → require_attribute json j k ≡ ok tt
unfolding require_attribute
require_attribute-found json laws j k t h = rw (laws.contains_view j k, h)
