-- ===== src/Libraries/Crypto.antt =====
-- libsodium, external/keccak and external/aes_128_ctr: the functions that
-- src/wrappers/cryptosignwrapper.cpp calls.
use mx_sdk_cpp.Common.{ℕ, ◌≡◌, Bool, true, Bytes, length, All, IsByte, Option}

-- A function that fills a buffer returns its bytes; `scrypt` returns `none` where the library does
-- not answer 0, and `verify_detached` whether it does. `scrypt password salt n r p length`.
pub record CryptoLib : Type 0 where
  pub sign_detached : Bytes → Bytes → Bytes
  pub verify_detached : Bytes → Bytes → Bytes → Bool
  pub seed_keypair : Bytes → Bytes
  pub sk_to_seed : Bytes → Bytes
  pub sk_to_pk : Bytes → Bytes
  pub scrypt : Bytes → Bytes → ℕ → ℕ → ℕ → ℕ → Option Bytes
  pub hmac_sha256 : Bytes → Bytes → Bytes
  pub aes_ctr_xcrypt : Bytes → Bytes → Bytes → Bytes
  pub sha3 : Bytes → ℕ → Bytes

-- A signature is made of bytes and verifies under the public key of the secret key that made it,
-- where this key comes from a seed of 32 bytes;
-- AES in counter mode is its own inverse.
pub record CryptoLaws (l : CryptoLib) : Type 0 where
  pub sign_detached-bytes : (message sk : Bytes) → All IsByte (l.sign_detached message sk)
  pub verify-sign :
      (message seed : Bytes)
      → length seed ≡ 32
      → l.verify_detached
          (l.sign_detached message (l.seed_keypair seed))
          message
          (l.sk_to_pk (l.seed_keypair seed))
        ≡ true
  pub aes_ctr_xcrypt-aes_ctr_xcrypt :
      (key iv text : Bytes)
      → All IsByte text
      → l.aes_ctr_xcrypt key iv (l.aes_ctr_xcrypt key iv text) ≡ text
