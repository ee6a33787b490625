-- ===== src/Transactions/Signer/MessageHash.antt =====
-- What the hash that `MessageSigner` signs tells of the message.
use mx_sdk_cpp.Common.{◌++◌, Bytes, length}
use mx_sdk_cpp.Common.Digits.{print}
use mx_sdk_cpp.Wrappers.Crypto

-- The text that is hashed.
abbrev prefixed : Bytes → Bytes
prefixed message = print 10 (length message) ++ message
