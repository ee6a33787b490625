-- ===== src/Wrappers/Http.antt =====
-- src/wrappers/httpwrapper.h, the client of one url.
use mx_sdk_cpp.Common.{Bool, false, [], Bytes, codes}
use mx_sdk_cpp.Common.Int.{ℤ, negsuc}
use mx_sdk_cpp.Libraries.Http.{HttpLib, Answer, response, no_response}

-- STATUS_CODE_DEFAULT
abbrev pub status_code_default : ℤ
status_code_default = negsuc 0

pub data ContentType : Type 0 where
  text_plain application_json : ContentType

pub record HttpResult : Type 0 where
  pub status : ℤ
  pub error : Bool
  pub body : Bytes
  pub status_message : Bytes

abbrev pub content_type_text : ContentType → Bytes
content_type_text application_json = codes "application/json"
content_type_text text_plain = codes "text/plain"

module _ (http : HttpLib) where
  unfoldable pub wrapped_result : Answer → HttpResult
  wrapped_result (response status body) = record {
    status = status;
    error = false;
    body = body;
    status_message = http.status_message status;
  }
  wrapped_result (no_response error) = record {
    status = status_code_default;
    error = error;
    body = [];
    status_message = http.status_message status_code_default;
  }

  unfoldable pub get : Bytes → Bytes → HttpResult
  get url path = wrapped_result (http.get url path)

  unfoldable pub post : Bytes → Bytes → Bytes → ContentType → HttpResult
  post url path message content_type =
      wrapped_result (http.post url path message (content_type_text content_type))
