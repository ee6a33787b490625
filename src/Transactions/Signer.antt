-- ===== src/Transactions/Signer.antt =====
-- src/transaction/signer.cpp, src/transaction/messagesigner.cpp and their headers.
pub mod Laws
pub mod MessageHash
use mx_sdk_cpp.Common.{
  ℕ, Bool, [], ◌∷◌, ◌++◌, Bytes, codes, length, ◌==◌, Result, ok, length_error, ◌>>=◌, ◌>>◌, guard,
}
use mx_sdk_cpp.Common.Digits.{print}
use mx_sdk_cpp.Utils.Errors.{error_msg_key_bytes_size}
use mx_sdk_cpp.Libraries.Crypto.{CryptoLib}
use mx_sdk_cpp.Wrappers.Crypto
use mx_sdk_cpp.Wrappers.Crypto.{seed_length}
use mx_sdk_cpp.Account.Address.{Address}

-- m_sk
pub record Signer : Type 0 where
  pub sk : Bytes

-- ERD_SIGNED_MSG_PREFIX; its first byte is 0x17.
abbrev pub erd_signed_msg_prefix : Bytes
erd_signed_msg_prefix = 0x17 ∷ codes "Elrond Signed Message:" ++ 10 ∷ []

module _ (lib : CryptoLib) where
  -- Signer(seed)
  unfoldable pub from_seed : Bytes → Result Signer
  from_seed seed = do
    guard (length seed == seed_length) (length_error error_msg_key_bytes_size)
    ok (record { sk = Crypto.get_secret_key lib seed })

  unfoldable pub get_signature : Signer → Bytes → Bytes
  get_signature s message = Crypto.get_signature lib s.sk message

  -- verify(signature, message)
  unfoldable pub verify_own : Signer → Bytes → Bytes → Bool
  verify_own s signature message =
      Crypto.verify lib signature message (Crypto.get_public_key lib s.sk)

  -- verify(signature, message, publicKey)
  unfoldable pub verify_key : Bytes → Bytes → Bytes → Bool
  verify_key signature message public_key = Crypto.verify lib signature message public_key

  -- verify(signature, message, address)
  unfoldable pub verify_address : Bytes → Bytes → Address → Bool
  verify_address signature message address = Crypto.verify lib signature message address.pk

  -- computeERDPrefixedMsgHash
  unfoldable pub erd_prefixed_msg_hash : Bytes → Bytes
  erd_prefixed_msg_hash message =
      Crypto.sha3_keccak lib (erd_signed_msg_prefix ++ print 10 (length message) ++ message)

  -- The members of MessageSigner.
  unfoldable pub get_message_signature : Signer → Bytes → Bytes
  get_message_signature s message = get_signature s (erd_prefixed_msg_hash message)

  unfoldable pub verify_message_own : Signer → Bytes → Bytes → Bool
  verify_message_own s signature message = verify_own s signature (erd_prefixed_msg_hash message)

  unfoldable pub verify_message_key : Bytes → Bytes → Bytes → Bool
  verify_message_key signature message public_key =
      verify_key signature (erd_prefixed_msg_hash message) public_key

  unfoldable pub verify_message_address : Bytes → Bytes → Address → Bool
  verify_message_address signature message address =
      verify_address signature (erd_prefixed_msg_hash message) address
