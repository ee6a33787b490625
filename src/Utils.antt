-- ===== src/Utils.antt =====
-- src/utils: base64, hexadecimal text, regrouping of bits, and the error messages.
pub mod Errors
pub mod Base64
pub mod Hex
pub mod ConvertBits
