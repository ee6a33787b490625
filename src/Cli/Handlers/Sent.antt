-- ===== src/Cli/Handlers/Sent.antt =====
-- What `handleIssueESDT` and `handleTransferESDT` have sent where they report a hash.
use mx_sdk_cpp.Common.{
  same_ok, ℕ, ◌≡◌, sym, ap, ◌∙◌, true, List, ◌++◌, Bytes, codes, some, ok, >>=-eq-ok,
}
use mx_sdk_cpp.Libraries.Crypto.{CryptoLaws}
use mx_sdk_cpp.Libraries.OptionParser.{ParseResult}
use mx_sdk_cpp.BigUInt.{BigUInt, from_string}
use mx_sdk_cpp.Wrappers.Crypto.{get_public_key, get_secret_key}
use mx_sdk_cpp.Account.Address.{Address, from_bech32}
use mx_sdk_cpp.FileHandler.{Files}
use mx_sdk_cpp.Provider.{ProxyProvider, get_network_config, send}
use mx_sdk_cpp.Transactions.Payload.Issue
use mx_sdk_cpp.Transactions.Payload.Properties.{EsdtProperties}
use mx_sdk_cpp.Transactions.Transaction.{Transaction}
use mx_sdk_cpp.Transactions.Transaction.Sign.{verify}
use mx_sdk_cpp.Transactions.Gas.{NetworkConfig}
use mx_sdk_cpp.Transactions.Builders.{
  TransactionBuilderInput, default_builder, build_egld, build_signed,
}
use mx_sdk_cpp.Transactions.Builders.Built.{verify-build_signed}
use mx_sdk_cpp.Transactions.Builders.Factory.{
  TransactionFactory, create_esdt_issue, esdt_issuance_value, esdt_issuance_address,
}
use mx_sdk_cpp.Transactions.Builders.Factory
use mx_sdk_cpp.Cli.Outcome.{returned, of_result, dereference, >>=-eq-returned, of_result-returned}
use mx_sdk_cpp.Cli.Config.{Config, config}
use mx_sdk_cpp.Cli.Input.{create_transaction}
use mx_sdk_cpp.Cli.SecretKey.{SecretKeyProvider, get_seed, get_address, sign_transaction}
use mx_sdk_cpp.Cli.SecretKey
use mx_sdk_cpp.Cli.Requests.{
  Tools, issue, read_properties, transfer_input, transfer_built, with_args, sign_and_send,
}
use mx_sdk_cpp.Cli.Handlers.{handle_issue_esdt, handle_transfer_esdt}
use mx_sdk_cpp.Cli.Handlers.Signed.{verify-sign_transaction, same_returned}

module _ (tools : Tools) (files : Files) (input : ParseResult) where
  open tools use {ints, bech32, crypto, json, tree, http, toml, toml_path}

  -- The address of the key's file has the public key of its seed.
  abbrev pub IsOwn : SecretKeyProvider → Type 0
  IsOwn key =
      (a : Address)
      → get_address bech32 crypto key ≡ ok a
      → a.pk ≡ get_public_key crypto (get_secret_key crypto (get_seed bech32 crypto key))

  abbrev proxy : Config → ProxyProvider
  proxy c = record { url = c.proxy_url }

  -- A transaction that verifies was accepted under the hash that is printed.
  pub record Sent (message : Bytes) : Type 0 where
    pub configured : Config
    pub transaction : Transaction
    pub hash : Bytes
    pub is_configured : config toml files toml_path ≡ returned configured
    pub is_sent : send tree http (proxy configured) json transaction ≡ ok hash
    pub is_message : message ≡ codes "Transaction hash: " ++ hash ++ codes "\n"
    pub verifies : verify json crypto transaction ≡ ok true

  -- Either handler reports.
  pub data Reports (message : Bytes) : Type 0 where
    issued : handle_issue_esdt tools files input ≡ returned message → Reports message
    transferred : handle_transfer_esdt tools files input ≡ returned message → Reports message

  issue_sender :
      (f : TransactionFactory) (nonce : ℕ) (a : Address) (gas_price : ℕ) (token ticker : Bytes)
      (supply : BigUInt) (decimals : ℕ) (properties : EsdtProperties)
      (built : TransactionBuilderInput)
      → create_esdt_issue ints bech32 f nonce a gas_price token ticker supply decimals properties
        ≡ ok built
      → (build_egld default_builder built).sender ≡ some a
  unfolding create_esdt_issue build_egld
  issue_sender f nonce a gas_price token ticker supply decimals properties built h =
      let (text, e1, r1) = >>=-eq-ok (Issue.build ints _) _ h in
      let (value, e2, r2) = >>=-eq-ok (from_string ints esdt_issuance_value) _ r1 in
      let (receiver, e3, r3) = >>=-eq-ok (from_bech32 bech32 esdt_issuance_address) _ r2 in
      ap (λ (b : TransactionBuilderInput). some b.sender) (sym (same_ok r3))

  module _ (laws : CryptoLaws crypto)
      (own : (key : SecretKeyProvider)
        → SecretKey.create tree crypto files input ≡ ok key
        → IsOwn key)
      (c : Config) where
    -- A transaction that is sent under a hash, and verifies.
    abbrev Accepted : Bytes → Type 0
    Accepted hash =
        (t : Transaction) × (send tree http (proxy c) json t ≡ ok hash)
        × (verify json crypto t ≡ ok true)

    issue-Accepted : (hash : Bytes) → issue tools files input c ≡ ok hash → Accepted hash
    unfolding issue
    issue-Accepted hash h =
        let (token, _, r1) = >>=-eq-ok (input.as_text (codes "token")) _ h in
        let (ticker, _, r2) = >>=-eq-ok (input.as_text (codes "ticker")) _ r1 in
        let (supply, _, r3) = >>=-eq-ok (input.as_text (codes "supply")) _ r2 in
        let (decimals, _, r4) = >>=-eq-ok (input.as_u32 (codes "dec")) _ r3 in
        let (properties, _, r5) = >>=-eq-ok (read_properties tools files input c) _ r4 in
        let (key, is_key, r6) = >>=-eq-ok (SecretKey.create tree crypto files input) _ r5 in
        let (tx, _, r7) = >>=-eq-ok (create_transaction ints bech32 input c) _ r6 in
        let (network, _, r8) = >>=-eq-ok (get_network_config tree http (proxy c)) _ r7 in
        let (a, is_address, r9) = >>=-eq-ok (get_address bech32 crypto key) _ r8 in
        let (initial, _, r10) = >>=-eq-ok (from_string ints supply) _ r9 in
        let (built, is_built, r11) =
          >>=-eq-ok
            (create_esdt_issue ints bech32 (Factory.create network) tx.nonce a tx.gas_price token
              ticker initial decimals properties)
            _ r10 in
        let (t, is_signed, sent) =
          >>=-eq-ok
            (build_signed json crypto (ok (build_egld default_builder built))
              (get_seed bech32 crypto key))
            _ r11 in
        (
          t,
          sent,
          verify-build_signed json crypto laws (get_seed bech32 crypto key)
              (build_egld default_builder built) t a
              (issue_sender (Factory.create network) tx.nonce a tx.gas_price token ticker initial
                decimals properties built is_built)
              (own key is_key a is_address) is_signed,
        )

    sign_and_send-Accepted :
        (key : SecretKeyProvider) (tx : Transaction) (hash : Bytes)
        → SecretKey.create tree crypto files input ≡ ok key
        → sign_and_send tools files input c key tx ≡ ok hash
        → Accepted hash
    unfolding sign_and_send
    sign_and_send-Accepted key tx hash is_key h =
        let (t, is_signed, sent) = >>=-eq-ok (sign_transaction bech32 crypto json tx key) _ h in
        (
          t,
          sent,
          verify-sign_transaction bech32 crypto laws json tx t key (own key is_key) is_signed,
        )

    -- What is left of the transfer behind its arguments.
    transfer_input-key :
        (token : Bytes) (args : List Bytes) (key : SecretKeyProvider) (tx : Transaction)
        (network : NetworkConfig)
        → transfer_input tools files input c ≡ ok (token, (args, (key, (tx, network))))
        → SecretKey.create tree crypto files input ≡ ok key
    unfolding transfer_input
    transfer_input-key token args key tx network h =
        let (token', _, r1) = >>=-eq-ok (input.as_text (codes "token")) _ h in
        let (function, _, r2) = >>=-eq-ok (input.as_text (codes "function")) _ r1 in
        let (args', _, r3) = >>=-eq-ok (input.as_texts (codes "args")) _ r2 in
        let (key', is_key, r4) = >>=-eq-ok (SecretKey.create tree crypto files input) _ r3 in
        let (tx', _, r5) = >>=-eq-ok (create_transaction ints bech32 input c) _ r4 in
        let (network', _, r6) = >>=-eq-ok (get_network_config tree http (proxy c)) _ r5 in
        is_key ∙ ap (λ x. ok x.1.1.0) (same_ok r6)

  module _ (laws : CryptoLaws crypto)
      (own : (key : SecretKeyProvider)
        → SecretKey.create tree crypto files input ≡ ok key
        → IsOwn key)
      (message : Bytes) where
    handle_issue_esdt-Sent : handle_issue_esdt tools files input ≡ returned message → Sent message
    unfolding handle_issue_esdt
    handle_issue_esdt-Sent h =
        let (c, configured, r1) = >>=-eq-returned (config toml files toml_path) _ h in
        let (hash, done, said) = >>=-eq-returned (of_result (issue tools files input c)) _ r1 in
        let (t, sent, verified) =
          issue-Accepted laws own c hash (of_result-returned (issue tools files input c) done) in
        record {
          configured = c;
          transaction = t;
          hash = hash;
          is_configured = configured;
          is_sent = sent;
          is_message = sym (same_returned said);
          verifies = verified;
        }

    handle_transfer_esdt-Sent :
        handle_transfer_esdt tools files input ≡ returned message → Sent message
    unfolding handle_transfer_esdt
    handle_transfer_esdt-Sent h =
        let (c, configured, r1) = >>=-eq-returned (config toml files toml_path) _ h in
        let ((token, (args, (key, (tx, network)))), read, r2) =
          >>=-eq-returned (of_result (transfer_input tools files input c)) _ r1 in
        let (receiver, _, r3) = >>=-eq-returned (dereference tx.receiver) _ r2 in
        let (built, _, r4) =
          >>=-eq-returned
            (of_result (transfer_built tools files input c token key tx network receiver)) _ r3 in
        let (text, _, r5) = >>=-eq-returned (dereference built.data_field) _ r4 in
        let full = with_args tools files input c args network built text in
        let (hash, done, said) =
          >>=-eq-returned (of_result (sign_and_send tools files input c key full)) _ r5 in
        let (t, sent, verified) =
          sign_and_send-Accepted laws own c key full hash
            (transfer_input-key laws own c token args key tx network
              (of_result-returned (transfer_input tools files input c) read))
            (of_result-returned (sign_and_send tools files input c key full) done) in
        record {
          configured = c;
          transaction = t;
          hash = hash;
          is_configured = configured;
          is_sent = sent;
          is_message = sym (same_returned said);
          verifies = verified;
        }

    -- Given the laws of the cryptography library, and that the address of the key file's reader
    -- has the public key of the reader's seed: where the handler of an issue or of a transfer
    -- reports success, its message has the hash under which the configured proxy accepted a
    -- transaction, and that transaction verifies.
    pub Reports-Sent : Reports message → Sent message
    Reports-Sent (issued h) = handle_issue_esdt-Sent h
    Reports-Sent (transferred h) = handle_transfer_esdt-Sent h
