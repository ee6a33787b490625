-- ===== src/Libraries/Http.antt =====
-- external/http, `httplib`: what src/wrappers/httpwrapper.h calls.
use mx_sdk_cpp.Common.{Bool, Bytes}
use mx_sdk_cpp.Common.Int.{ℤ}

-- `response status body`, or none and whether the error differs from `Error::Success`.
pub data Answer : Type 0 where
  response : ℤ → Bytes → Answer
  no_response : Bool → Answer

-- `get url path`, `post url path message content_type`: what the network answers to the one request.
pub record HttpLib : Type 0 where
  pub get : Bytes → Bytes → Answer
  pub post : Bytes → Bytes → Bytes → Bytes → Answer
  pub status_message : ℤ → Bytes
