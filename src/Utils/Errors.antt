-- ===== src/Utils/Errors.antt =====
-- src/utils/errors.h, the messages that the modelled code throws.
use mx_sdk_cpp.Common.{Bytes, codes}

abbrev pub error_msg_hex : Bytes
error_msg_hex = codes "Invalid hex digit format."

abbrev pub error_msg_convert_bits : Bytes
error_msg_convert_bits = codes "Cannot convert bits"

abbrev pub error_msg_value : Bytes
error_msg_value = codes "Invalid value: "

abbrev pub error_msg_negative_value : Bytes
error_msg_negative_value = codes "Received negative value"

abbrev pub error_msg_cannot_convert_to_base : Bytes
error_msg_cannot_convert_to_base = codes "Cannot convert number to base: "

abbrev pub error_msg_key_bytes_size : Bytes
error_msg_key_bytes_size = codes "Key bytes size invalid."

abbrev pub error_msg_bech32 : Bytes
error_msg_bech32 = codes "Invalid bech32 address."

abbrev pub error_msg_file_empty : Bytes
error_msg_file_empty = codes "File is empty."

abbrev pub error_msg_file_does_not_exist : Bytes
error_msg_file_does_not_exist = codes "File does not exists: "

abbrev pub error_msg_file_extension_invalid : Bytes
error_msg_file_extension_invalid = codes "File extension invalid."

abbrev pub error_msg_key_file : Bytes
error_msg_key_file = codes "Invalid keyfile."

abbrev pub error_msg_mac : Bytes
error_msg_mac = codes "MAC mismatch, possibly wrong password."

abbrev pub error_msg_key_file_version : Bytes
error_msg_key_file_version = codes "Key file version not supported."

abbrev pub error_msg_key_file_derivation_function : Bytes
error_msg_key_file_derivation_function = codes "Key file derivation function not supported."

abbrev pub error_msg_key_file_cipher : Bytes
error_msg_key_file_cipher = codes "Key file cipher algorithm not supported."

abbrev pub error_msg_http_request_failed : Bytes
error_msg_http_request_failed = codes "Request failed with message: "

abbrev pub error_msg_reason : Bytes
error_msg_reason = codes "Error reason: "

abbrev pub error_msg_empty_value : Bytes
error_msg_empty_value = codes "Empty value: "

abbrev pub error_msg_missing_password : Bytes
error_msg_missing_password = codes "Missing key file password."

abbrev pub error_msg_sodium_init : Bytes
error_msg_sodium_init = codes "Could not initialize sodium library."
