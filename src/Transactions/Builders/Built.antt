-- ===== src/Transactions/Builders/Built.antt =====
-- What the transactions that the builders make hold.
use mx_sdk_cpp.Common.{
  ℕ, ◌≡◌, refl, ap, ◌∙◌, true, List, [], ◌∷◌, some, none, Bytes, codes, length, All, IsByte, ok,
  >>=-eq-ok, arith,
}
use mx_sdk_cpp.Utils.Hex.{string_to_hex}
use mx_sdk_cpp.Libraries.Integers.{IntegerLib, IntegerLaws}
use mx_sdk_cpp.Libraries.Bech32.{Bech32Lib}
use mx_sdk_cpp.Libraries.Json.{JsonLib}
use mx_sdk_cpp.Libraries.Crypto.{CryptoLib, CryptoLaws}
use mx_sdk_cpp.Wrappers.Crypto
use mx_sdk_cpp.Wrappers.Crypto.{seed_length}
use mx_sdk_cpp.BigUInt.Arithmetic.{Represents}
use mx_sdk_cpp.Account.Address.{Address, from_bech32}
use mx_sdk_cpp.SmartContracts.Fields.{fields, call_fields}
use mx_sdk_cpp.Transactions.TokenPayment.{TokenPayment, fungible_from_amount, has_leading_zeroes}
use mx_sdk_cpp.Transactions.TokenPayment.Accept.{from_val_whole}
use mx_sdk_cpp.BigUInt.{from_u64}
use mx_sdk_cpp.Transactions.Payload.Transfer
use mx_sdk_cpp.Transactions.Payload.NftTransfer
use mx_sdk_cpp.Transactions.Payload.Decode.{Field, IsCall, fields-transfer, fields-nft_transfer}
use mx_sdk_cpp.Transactions.Gas.{for_esdt_transfer, for_esdt_nft_transfer}
use mx_sdk_cpp.Transactions.Signer.{Signer, from_seed}
use mx_sdk_cpp.Transactions.Signer.Laws.{from_seed-sk}
use mx_sdk_cpp.Transactions.Transaction.{Transaction}
use mx_sdk_cpp.Transactions.Transaction.Sign.{sign, verify}
use mx_sdk_cpp.Transactions.Transaction.SignVerify.{verify-sign}
use mx_sdk_cpp.Transactions.Builders.{
  TokenBuilder, string_to_bytes_ptr, build_esdt, build_esdt_nft, build_signed,
}

module _ (json : JsonLib) (crypto : CryptoLib) (laws : CryptoLaws crypto) where
  -- Given the laws of the cryptography library: where a built transaction's sender has the public
  -- key of the seed and `build_signed` succeeds, the transaction that it returns verifies.
  pub verify-build_signed :
      (seed : Bytes) (t t' : Transaction) (a : Address)
      → t.sender ≡ some a
      → a.pk ≡ Crypto.get_public_key crypto (Crypto.get_secret_key crypto seed)
      → build_signed json crypto (ok t) seed ≡ ok t'
      → verify json crypto t' ≡ ok true
  unfolding build_signed from_seed
  verify-build_signed seed t t' a sent own done =
      let (signer, made, signed) =
        >>=-eq-ok (from_seed crypto seed) (λ s. sign json crypto t s) done in
      verify-sign json crypto laws t t' seed signer a made sent
        (own
          ∙ ap (λ (s : Signer). Crypto.get_public_key crypto s.sk)
              (from_seed-sk crypto seed signer made).1)
        signed

pub zero_amount :
    (ints : IntegerLib)
    → IntegerLaws ints
    → (p : TokenPayment) × (fungible_from_amount ints [] (codes "0") 0 ≡ ok p)
unfolding fungible_from_amount has_leading_zeroes
zero_amount ints laws =
    let (v, is, spells) =
      from_val_whole ints laws (codes "0") 0
        (record { digits = ground arith; some_digit = ground arith; shortest = refl }) in
    (record { token_identifier = []; value = v; nonce = 0; num_decimals = 0 }, rw is)

-- A text whose first field has a character is not empty.
pub kept :
    (text : Bytes) (c : ℕ) (s : Bytes) (more : List Bytes)
    → fields text ≡ (c ∷ s) ∷ more
    → string_to_bytes_ptr text ≡ some text
unfolding fields
kept [] c s more h = cc
kept (a ∷ text) c s more h = refl

module _ (ints : IntegerLib) (laws : IntegerLaws ints) (b : TokenBuilder TokenPayment) (n : ℕ)
    (r : Represents (b.paid).value n) (token : All IsByte (b.paid).token_identifier)
    (is : IsCall b.contract_call) where
  -- Given the laws of the class `integer`, for a payment of `n` units, an identifier and a call
  -- that come from bytes, a transaction is built: it goes from the sender to the receiver with the
  -- value 0, asks for the gas that is estimated for the length of its data, and the data cut at
  -- the separators is the name `ESDTTransfer`, the identifier, the amount and the fields of the
  -- call.
  pub build_esdt-fields :
      (t : Transaction) × (data_field : Bytes) × (value : Field n) × (build_esdt ints b ≡ ok t)
      × (t.data_field ≡ some data_field)
      × (fields data_field
          ≡ codes "ESDTTransfer"
            ∷ string_to_hex (b.paid).token_identifier
            ∷ value.text
            ∷ call_fields b.contract_call)
      × (t.receiver ≡ some (b.tx_input).receiver)
      × (t.sender ≡ some (b.tx_input).sender)
      × (t.value ≡ from_u64 0)
      × (t.gas_limit ≡ for_esdt_transfer (b.tx_input).gas_estimator (length data_field))
  unfolding build_esdt Transfer.create Transfer.set_payment Transfer.with_contract_call
  build_esdt-fields =
      let (zero_payment, created) = zero_amount ints laws in
      let (text, value, made, is_fields) =
        fields-transfer ints laws b.paid n r token b.contract_call is in
      (
        record {
          nonce = (b.tx_input).nonce;
          value = from_u64 0;
          receiver_user_name = none;
          sender_user_name = none;
          receiver = some (b.tx_input).receiver;
          sender = some (b.tx_input).sender;
          gas_price = (b.tx_input).gas_price;
          gas_limit = for_esdt_transfer (b.tx_input).gas_estimator (length text);
          chain_id = (b.tx_input).chain_id;
          version = (b.base).version;
          data_field = string_to_bytes_ptr text;
          signature = none;
          options = (b.base).options;
        },
        text,
        value,
        rw (created, made),
        kept text _ _ _ is_fields,
        is_fields,
        refl,
        refl,
        refl,
        refl,
      )

  -- Given the laws of the class `integer`, for a payment of `n` units, an identifier, a receiver's
  -- key and a call that come from bytes, and a receiver whose text is accepted as the receiver, a
  -- transaction is built: it goes from the sender to the sender with the value 0, asks for the gas
  -- that is estimated for the length of its data, and the data cut at the separators is the name
  -- `ESDTNFTTransfer`, the identifier, the nonce, the amount, the receiver's key and the fields of
  -- the call.
  pub build_esdt_nft-fields :
      (bech32 : Bech32Lib)
      → from_bech32 bech32 (b.tx_input).receiver.bech32_address ≡ ok (b.tx_input).receiver
      → All IsByte (b.tx_input).receiver.pk
      → (t : Transaction) × (data_field : Bytes) × (nonce : Field (b.paid).nonce) × (value : Field
          n)
        × (build_esdt_nft ints bech32 b ≡ ok t)
        × (t.data_field ≡ some data_field)
        × (fields data_field
            ≡ codes "ESDTNFTTransfer"
              ∷ string_to_hex (b.paid).token_identifier
              ∷ nonce.text
              ∷ value.text
              ∷ string_to_hex (b.tx_input).receiver.pk
              ∷ call_fields b.contract_call)
        × (t.receiver ≡ some (b.tx_input).sender)
        × (t.sender ≡ some (b.tx_input).sender)
        × (t.value ≡ from_u64 0)
        × (t.gas_limit ≡ for_esdt_nft_transfer (b.tx_input).gas_estimator (length data_field))
  unfolding build_esdt_nft NftTransfer.create NftTransfer.set_payment NftTransfer.set_destination
      NftTransfer.with_contract_call
  build_esdt_nft-fields bech32 read key =
      let (zero_payment, created) = zero_amount ints laws in
      let (text, nonce, value, made, is_fields) =
        fields-nft_transfer ints laws b.paid n r token b.contract_call is bech32
          (b.tx_input).receiver read key in
      (
        record {
          nonce = (b.tx_input).nonce;
          value = from_u64 0;
          receiver_user_name = none;
          sender_user_name = none;
          receiver = some (b.tx_input).sender;
          sender = some (b.tx_input).sender;
          gas_price = (b.tx_input).gas_price;
          gas_limit = for_esdt_nft_transfer (b.tx_input).gas_estimator (length text);
          chain_id = (b.tx_input).chain_id;
          version = (b.base).version;
          data_field = string_to_bytes_ptr text;
          signature = none;
          options = (b.base).options;
        },
        text,
        nonce,
        value,
        rw (created, made),
        kept text _ _ _ is_fields,
        is_fields,
        refl,
        refl,
        refl,
        refl,
      )
