-- ===== src/Transactions/Signer/Laws.antt =====
-- What a signer that is made from a seed signs.
use mx_sdk_cpp.Common.{
  ◌≡◌, subst, true, Bytes, length, length_error, ◌==◌, ==_iff, ok, guard-ok, same_ok,
}
use mx_sdk_cpp.Utils.Errors.{error_msg_key_bytes_size}
use mx_sdk_cpp.Libraries.Crypto.{CryptoLib, CryptoLaws}
use mx_sdk_cpp.Wrappers.Crypto
use mx_sdk_cpp.Wrappers.Crypto.{seed_length}
use mx_sdk_cpp.Account.Address.{Address}
use mx_sdk_cpp.Transactions.Signer.{Signer, from_seed, get_signature, verify_address}

module _ (lib : CryptoLib) (seed : Bytes) (s : Signer) (made : from_seed lib seed ≡ ok s) where
  pub from_seed-sk :
      (length seed ≡ seed_length) × (record { sk = Crypto.get_secret_key lib seed } ≡ s)
  unfolding from_seed
  from_seed-sk =
      let (sized, is) =
        guard-ok (length seed == seed_length) (length_error error_msg_key_bytes_size)
          (ok (record { sk = Crypto.get_secret_key lib seed })) made in
      ((==_iff (length seed) seed_length).0 sized, same_ok is)

  pub verify_address-get_signature :
      (laws : CryptoLaws lib) (message : Bytes) (a : Address)
      → a.pk ≡ Crypto.get_public_key lib s.sk
      → verify_address lib (get_signature lib s message) message a ≡ true
  unfolding Crypto.get_public_key Crypto.get_secret_key Crypto.verify Crypto.get_signature
      get_signature verify_address
  verify_address-get_signature laws message a own =
      let (sized, same) = from_seed-sk in
      rw own (
        subst
          (λ (u : Signer).
            lib.verify_detached (lib.sign_detached message u.sk) message (lib.sk_to_pk u.sk) ≡ true)
          same (laws.verify-sign message seed sized))
