-- ===== src/Transactions/Transaction/SignVerify.antt =====
-- A signed transaction verifies.
use mx_sdk_cpp.Common.{
  ◌≡◌, refl, ◌∙◌, ap, sym, true, false, Option, some, Bytes, Result, ok, ◌>>=◌, >>=-eq-ok, All,
  IsByte,
}
use mx_sdk_cpp.Utils.Hex.{string_to_hex}
use mx_sdk_cpp.Utils.Hex.RoundTrip.{hex_to_string-string_to_hex}
use mx_sdk_cpp.Libraries.Json.{JsonLib}
use mx_sdk_cpp.Libraries.Crypto.{CryptoLib, CryptoLaws}
use mx_sdk_cpp.Wrappers.Crypto
use mx_sdk_cpp.Account.Address.{Address}
use mx_sdk_cpp.Transactions.Signer.{Signer, from_seed, get_signature}
use mx_sdk_cpp.Transactions.Signer.Laws.{verify_address-get_signature}
use mx_sdk_cpp.Transactions.Transaction.{Transaction}
use mx_sdk_cpp.Transactions.Transaction.Sign.{serialized_tx_msg, sign, verify}

module _ (json : JsonLib) (crypto : CryptoLib) where
  -- The signature that is there is no part of what is signed.
  serialized_tx_msg_unsigned :
      (t : Transaction) (s : Option Bytes)
      → serialized_tx_msg json crypto (record t { signature = s }) false
        ≡ serialized_tx_msg json crypto t false
  unfolding serialized_tx_msg
  serialized_tx_msg_unsigned t s = refl

  get_signature-bytes :
      (laws : CryptoLaws crypto) (s : Signer) (m : Bytes) → All IsByte (get_signature crypto s m)
  unfolding get_signature Crypto.get_signature
  get_signature-bytes laws s m = laws.sign_detached-bytes m s.sk

  verify_signed :
      (laws : CryptoLaws crypto) (t : Transaction) (seed : Bytes) (s : Signer) (a : Address)
      (m : Bytes)
      → from_seed crypto seed ≡ ok s
      → t.sender ≡ some a
      → a.pk ≡ Crypto.get_public_key crypto s.sk
      → serialized_tx_msg json crypto t false ≡ ok m
      → verify json crypto
          (record t { signature = some (string_to_hex (get_signature crypto s m)) })
        ≡ ok true
  unfolding verify
  verify_signed laws t seed s a m signer sent own made =
      rw
        (
          serialized_tx_msg_unsigned t (some (string_to_hex (get_signature crypto s m))),
          made,
          hex_to_string-string_to_hex (get_signature crypto s m) (get_signature-bytes laws s m),
          sent,
        )
        (ap ok (verify_address-get_signature crypto seed s signer laws m a own))

-- Given the laws of the cryptography library: where a signer is made from a seed, a transaction's
-- sender has the public key of the signer's secret key, and `sign` succeeds, the signed
-- transaction verifies.
pub verify-sign :
    (json : JsonLib) (crypto : CryptoLib) (laws : CryptoLaws crypto) (t t' : Transaction)
    (seed : Bytes) (s : Signer) (a : Address)
    → from_seed crypto seed ≡ ok s
    → t.sender ≡ some a
    → a.pk ≡ Crypto.get_public_key crypto s.sk
    → sign json crypto t s ≡ ok t'
    → verify json crypto t' ≡ ok true
unfolding sign
verify-sign json crypto laws t t' seed s a signer sent own done =
    let (m, made, same) =
      >>=-eq-ok (serialized_tx_msg json crypto t false)
        (λ m. ok (record t { signature = some (string_to_hex (get_signature crypto s m)) })) done in
    ap (λ (r : Result Transaction). r >>= verify json crypto) (sym same)
    ∙ verify_signed json crypto laws t seed s a m signer sent own made
