-- ===== src/Wrappers/OrderedJson.antt =====
-- src/wrappers/jsonwrapper.h. Setting a key of the default value or of an object does not throw, so the
-- handler around it has no counterpart.
use mx_sdk_cpp.Common.{
  ℕ, not, ◌++◌, Bytes, codes, Result, ok, invalid_argument, ◌>>=◌, ◌>>◌, guard, rethrow,
}
use mx_sdk_cpp.Utils.Base64
use mx_sdk_cpp.Libraries.Json.{JsonLib}

abbrev pub error_msg_json_key_not_found : Bytes
error_msg_json_key_not_found = codes "Json does not contain key: "

abbrev pub error_msg_json_serialized : Bytes
error_msg_json_serialized = codes "Invalid serialized json string: "

abbrev pub error_msg_json_serialize_empty : Bytes
error_msg_json_serialize_empty = codes "Empty json."

module _ (lib : JsonLib) where
  open lib use {Json}

  -- set<bytes>
  unfoldable pub set_bytes : Json → Bytes → Bytes → Json
  set_bytes j key value = lib.set_string j key (Base64.encode value)

  -- The handler of `at`.
  abbrev at_key {ℓ} : {A : Type ℓ} → Bytes → Result A → Result A
  at_key key r = rethrow r (λ e. invalid_argument (error_msg_json_key_not_found ++ key))

  unfoldable pub at_u64 : Json → Bytes → Result ℕ
  at_u64 j key = at_key key (lib.get_u64 j key)

  unfoldable pub at_u32 : Json → Bytes → Result ℕ
  at_u32 j key = at_key key (lib.get_u32 j key)

  unfoldable pub at_string : Json → Bytes → Result Bytes
  at_string j key = at_key key (lib.get_string j key)

  -- at<bytes>
  unfoldable pub at_bytes : Json → Bytes → Result Bytes
  at_bytes j key = at_key key (do tmp ← lib.get_string j key; ok (Base64.decode tmp))

  unfoldable pub serialize : Json → Result Bytes
  serialize j = do
    guard (not (lib.is_empty j)) (invalid_argument error_msg_json_serialize_empty)
    lib.dump j

  unfoldable pub deserialize : Bytes → Result Json
  deserialize serialized =
      rethrow (lib.parse serialized)
        (λ e. invalid_argument (error_msg_json_serialized ++ serialized))
