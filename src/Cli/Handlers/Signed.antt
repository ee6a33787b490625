-- ===== src/Cli/Handlers/Signed.antt =====
-- What `handleCreateSignedTransaction` leaves in the file.
use mx_sdk_cpp.Common.{
  ◌≢◌, ◌⊎◌, inl, inr, Bool-cases, bytes_eq_refl, bytes_eq-neq, none, false, same_ok, ◌≡◌, refl, sym,
  ap, ◌∙◌, true, Bytes, codes, some, Result, ok, err, >>=-eq-ok,
}
use mx_sdk_cpp.Libraries.Bech32.{Bech32Lib}
use mx_sdk_cpp.Libraries.Crypto.{CryptoLib, CryptoLaws}
use mx_sdk_cpp.Libraries.Json.{JsonLib}
use mx_sdk_cpp.Libraries.OptionParser.{ParseResult}
use mx_sdk_cpp.Wrappers.Crypto.{get_public_key, get_secret_key}
use mx_sdk_cpp.Account.Address.{Address}
use mx_sdk_cpp.FileHandler.{Files, check_file}
use mx_sdk_cpp.Transactions.Signer.{Signer, from_seed}
use mx_sdk_cpp.Transactions.Signer.Laws.{from_seed-sk}
use mx_sdk_cpp.Transactions.Transaction.{Transaction}
use mx_sdk_cpp.Transactions.Transaction.Serialize.{serialize}
use mx_sdk_cpp.Transactions.Transaction.Sign.{verify, sign, serialized_tx_msg}
use mx_sdk_cpp.Transactions.Transaction.SignVerify.{verify-sign}
use mx_sdk_cpp.Cli.Outcome.{
  Outcome, returned, threw, null_dereference, >>=-eq-returned, of_result-returned,
}
use mx_sdk_cpp.Cli.Config.{Config, config, write_file}
use mx_sdk_cpp.Cli.Input.{create_transaction}
use mx_sdk_cpp.Cli.SecretKey.{SecretKeyProvider, get_seed, get_address, sign_transaction}
use mx_sdk_cpp.Cli.SecretKey
use mx_sdk_cpp.Cli.Requests.{Tools, signed_for_file}
use mx_sdk_cpp.Cli.Handlers.{store, write_transaction, handle_create_signed_transaction}

pub verify-sign_transaction :
    (bech32 : Bech32Lib) (crypto : CryptoLib) (laws : CryptoLaws crypto) (json : JsonLib)
    (t t' : Transaction) (key : SecretKeyProvider)
    → ((a : Address)
        → get_address bech32 crypto key ≡ ok a
        → a.pk ≡ get_public_key crypto (get_secret_key crypto (get_seed bech32 crypto key)))
    → sign_transaction bech32 crypto json t key ≡ ok t'
    → verify json crypto t' ≡ ok true
unfolding sign_transaction
verify-sign_transaction bech32 crypto laws json t t' key own done =
    let (a, addressed, rest) = >>=-eq-ok (get_address bech32 crypto key) _ done in
    let (signer, made, signed) = >>=-eq-ok (from_seed crypto (get_seed bech32 crypto key)) _ rest in
    verify-sign json crypto laws (record t { sender = some a }) t' (get_seed bech32 crypto key)
      signer a made refl
      (own a addressed
        ∙ ap (λ (s : Signer). get_public_key crypto s.sk) (from_seed-sk crypto _ signer made).1)
      signed

pub same_returned {ℓ} : {A : Type ℓ} {a b : A} → returned a ≡ returned b → a ≡ b
same_returned h = cc

same_pair : (p q : Bytes × Transaction) → ok p ≡ ok q → (p.0 ≡ q.0) × (p.1 ≡ q.1)
same_pair p q h = (ap (λ x. x.0) (same_ok h), ap (λ x. x.1) (same_ok h))

module _ (tools : Tools) (files : Files) where
  open tools use {ints, bech32, crypto, json, toml, toml_path, tree, opens}

  store-returned :
      (path : Bytes) (r : Result Bytes) (left : Files) (message : Bytes)
      → store tools files path r ≡ (left, returned message)
      → (text : Bytes) × (r ≡ ok text) × (left ≡ write_file opens files path text)
  unfolding store
  store-returned path (err e) left message h = let f = ap (λ x. x.1) h in absurd cc
  store-returned path (ok text) left message h = (text, refl, sym (ap (λ x. x.0) h))

  write-returned :
      (o : Outcome (Bytes × Transaction)) (left : Files) (message : Bytes)
      → write_transaction tools files o ≡ (left, returned message)
      → (path : Bytes) × (t : Transaction) × (text : Bytes) × (o ≡ returned (path, t))
        × (serialize json t ≡ ok text)
        × (left ≡ write_file opens files path text)
  unfolding write_transaction
  write-returned (threw e) left message h = let f = ap (λ x. x.1) h in absurd cc
  write-returned null_dereference left message h = let f = ap (λ x. x.1) h in absurd cc
  write-returned (returned (path, t)) left message h =
      let (text, written, same) = store-returned path (serialize json t) left message h in
      (path, t, text, refl, written, same)

  -- The path holds the text where it opens for writing, and what it held elsewhere.
  abbrev pub IsStored : Files → Bytes → Bytes → Type 0
  IsStored left path text =
      ((opens path ≡ true) × (left path ≡ some text))
      ⊎ ((opens path ≡ false) × (left path ≡ files path))

  write_file-IsStored : (path text : Bytes) → IsStored (write_file opens files path text) path text
  write_file-IsStored path text = elim (Bool-cases (opens path)) [
    | inl opened ↦ inl (opened, rw (opened, bytes_eq_refl path) refl)
    | inr closed ↦ inr (closed, rw closed refl)
  ]

  write_file-other : (path text p : Bytes) → p ≢ path → write_file opens files path text p ≡ files p
  write_file-other path text p h = elim (Bool-cases (opens path)) [
    | inl opened ↦ rw (opened, bytes_eq-neq path p (λ e. h (sym e))) refl
    | inr closed ↦ rw closed refl
  ]

  -- The transaction with neither sender nor signature.
  abbrev pub unsigned : Transaction → Transaction
  unsigned t = record t { sender = none; signature = none }

  sign_transaction-unsigned :
      (t t' : Transaction) (key : SecretKeyProvider)
      → sign_transaction bech32 crypto json t key ≡ ok t'
      → unsigned t' ≡ unsigned t
  unfolding sign_transaction sign
  sign_transaction-unsigned t t' key done =
      let (a, _, rest) = >>=-eq-ok (get_address bech32 crypto key) _ done in
      let (signer, _, signed) = >>=-eq-ok (from_seed crypto (get_seed bech32 crypto key)) _ rest in
      let (m, _, same) =
        >>=-eq-ok (serialized_tx_msg json crypto (record t { sender = some a }) false) _ signed in
      sym (ap unsigned (same_ok same))

  -- What is left where success is reported: the transaction that the options describe, signed, as a text.
  pub record Written (input : ParseResult) (left : Files) : Type 1 where
    pub configured : Config
    pub path : Bytes
    pub described : Transaction
    pub transaction : Transaction
    pub text : Bytes
    pub is_configured : config toml files toml_path ≡ returned configured
    pub is_path : input.as_text (codes "outfile") ≡ ok path
    pub is_described : create_transaction ints bech32 input configured ≡ ok described
    pub same_members : unsigned transaction ≡ unsigned described
    pub verifies : verify json crypto transaction ≡ ok true
    pub is_text : serialize json transaction ≡ ok text
    pub stored : IsStored left path text
    pub others : (p : Bytes) → p ≢ path → left p ≡ files p

  -- Given the laws of the cryptography library, and that the address of the key file's reader has
  -- the public key of the reader's seed: where the handler reports success, the options and the
  -- configuration describe a transaction, and a transaction with the same members but for sender
  -- and signature verifies; its text is at the path of the option `outfile` where that path opens
  -- for writing, and that path is as it was where it does not; every other path is as it was.
  pub handle_create_signed_transaction-Written :
      (laws : CryptoLaws crypto) (input : ParseResult) (left : Files) (message : Bytes)
      → ((key : SecretKeyProvider) (a : Address)
          → SecretKey.create tree crypto files input ≡ ok key
          → get_address bech32 crypto key ≡ ok a
          → a.pk ≡ get_public_key crypto (get_secret_key crypto (get_seed bech32 crypto key)))
      → handle_create_signed_transaction tools files input ≡ (left, returned message)
      → Written input left
  unfolding handle_create_signed_transaction signed_for_file
  handle_create_signed_transaction-Written laws input left message own h =
      let (path, t, text, made, written, same) = write-returned _ left message h in
      let (c, configured, signed) = >>=-eq-returned (config toml files toml_path) _ made in
      let done = of_result-returned (signed_for_file tools files input c) signed in
      let (path', is_path, rest) = >>=-eq-ok (input.as_text (codes "outfile")) _ done in
      let (key, is_key, rest2) = >>=-eq-ok (SecretKey.create tree crypto files input) _ rest in
      let (created, is_created, rest3) =
        >>=-eq-ok (create_transaction ints bech32 input c) _ rest2 in
      let (t', is_signed, rest4) =
        >>=-eq-ok (sign_transaction bech32 crypto json created key) _ rest3 in
      let (u, checked, last) = >>=-eq-ok (check_file files path' (codes "json")) _ rest4 in
      let (same_path, same_transaction) = same_pair (path', t') (path, t) last in
      let signed_t = is_signed ∙ ap ok same_transaction in
      record {
        configured = c;
        path = path;
        described = created;
        transaction = t;
        text = text;
        is_configured = configured;
        is_path = is_path ∙ ap ok same_path;
        is_described = is_created;
        same_members = sign_transaction-unsigned created t key signed_t;
        verifies =
            verify-sign_transaction bech32 crypto laws json created t key (λ a. own key a is_key)
              signed_t;
        is_text = written;
        stored = rw same (write_file-IsStored path text);
        others = rw same (write_file-other path text);
      }
