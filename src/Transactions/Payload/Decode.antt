-- ===== src/Transactions/Payload/Decode.antt =====
-- What the receiver of a data field finds when it is cut at the separators.
use mx_sdk_cpp.Common.{
  ℕ, ◌≡◌, List, [], ◌∷◌, ◌++◌, append_assoc, Bytes, codes, All, All-append, IsByte, ok, arith,
}
use mx_sdk_cpp.Common.Digits.{number}
use mx_sdk_cpp.Utils.Hex.{string_to_hex}
use mx_sdk_cpp.Utils.Hex.Errors.{IsHexDigit}
use mx_sdk_cpp.Libraries.Integers.{IntegerLib, IntegerLaws}
use mx_sdk_cpp.Libraries.Bech32.{Bech32Lib}
use mx_sdk_cpp.BigUInt.{BigUInt, from_u64}
use mx_sdk_cpp.BigUInt.Arithmetic.{Represents, of_number-Represents, hex_value_exact}
use mx_sdk_cpp.Account.Address.{Address, from_bech32}
use mx_sdk_cpp.SmartContracts.{
  ContractCall, add_string, add_big_uint, add_address, as_on_data, call_on_data,
}
use mx_sdk_cpp.SmartContracts.Fields.{
  fields, fields-separated, separated, separated-append, Lacks, IsValid, as_on_data-separated,
  call_on_data-separated, call_fields, call_fields-Lacks, hex_args-Lacks, string_to_hex-IsHexDigit,
}
use mx_sdk_cpp.Transactions.TokenPayment.{TokenPayment}
use mx_sdk_cpp.Transactions.Payload.Transfer
use mx_sdk_cpp.Transactions.Payload.NftTransfer

-- A hexadecimal field that stands for the number `n`.
pub record Field (n : ℕ) : Type 0 where
  pub text : Bytes
  pub hex : All IsHexDigit text
  pub spells : number 16 text ≡ n

-- A call that comes from bytes and from arguments added by the code.
pub record IsCall (c : ContractCall) : Type 0 where
  pub function_bytes : All IsByte c.function
  pub args_valid : IsValid c.args

-- The name of the data field, its arguments, and what stands behind them.
pub fields-behind :
    (name : Bytes) (args more : List Bytes)
    → Lacks name
    → All (All IsHexDigit) args
    → All Lacks more
    → fields (name ++ as_on_data (record { args = args }) ++ separated more) ≡ name ∷ args ++ more
fields-behind name args more h v lack =
    rw (as_on_data-separated (record { args = args }), append_assoc, ← separated-append)
      (fields-separated name (args ++ more) h
        (All-append Lacks args more (hex_args-Lacks args v) lack))

pub fields-payload :
    (name : Bytes) (args : List Bytes) (c : ContractCall)
    → Lacks name
    → All (All IsHexDigit) args
    → IsCall c
    → fields (name ++ as_on_data (record { args = args }) ++ call_on_data c)
      ≡ name ∷ args ++ call_fields c
fields-payload name args c h v is = rw (call_on_data-separated c) (
    fields-behind name args (call_fields c) h v
      (call_fields-Lacks c is.function_bytes is.args_valid))

module _ (lib : IntegerLib) (laws : IntegerLaws lib) where
  pub number-Field :
      (b : BigUInt) (n : ℕ)
      → Represents b n
      → (f : Field n) × ((args : List Bytes)
          → add_big_uint lib (record { args = args }) b
            ≡ ok (record { args = args ++ f.text ∷ [] }))
  unfolding add_big_uint
  number-Field b n r =
      let (val, is, even, hex, spells) = hex_value_exact lib laws b b n n r r in
      (record { text = val; hex = hex; spells = spells }, λ args. rw is)

  pub u64-Field :
      (n : ℕ)
      → (f : Field n) × ((args : List Bytes)
          → add_big_uint lib (record { args = args }) (from_u64 n)
            ≡ ok (record { args = args ++ f.text ∷ [] }))
  unfolding from_u64
  u64-Field n = number-Field (from_u64 n) n (of_number-Represents n)

  module _ (p : TokenPayment) (n : ℕ) (r : Represents p.value n)
      (token : All IsByte p.token_identifier) (c : ContractCall) (is : IsCall c) where
    -- Given the laws of the class `integer`, for a payment of `n` units, an identifier and a call
    -- that come from bytes, the data field is built, and cut at the separators it is the name
    -- `ESDTTransfer`, the identifier in hexadecimal, a hexadecimal text of `n`, and the fields of
    -- the call.
    pub fields-transfer :
        (data_field : Bytes) × (value : Field n) × (Transfer.build lib
            (record { payment = p; contract_call = c })
          ≡ ok data_field)
        × (fields data_field
            ≡ codes "ESDTTransfer" ∷ string_to_hex p.token_identifier ∷ value.text ∷ call_fields c)
    unfolding Transfer.build add_string
    fields-transfer =
        let (value, added) = number-Field p.value n r in
        let args = string_to_hex p.token_identifier ∷ value.text ∷ [] in
        (
          codes "ESDTTransfer" ++ as_on_data (record { args = args }) ++ call_on_data c,
          value,
          rw added,
          fields-payload (codes "ESDTTransfer") args c (omega arith)
              (string_to_hex-IsHexDigit _ token, (value.hex, tt)) is,
        )

    -- Given the laws of the class `integer`, for a payment of `n` units, an identifier, a
    -- receiver's key and a call that come from bytes, and a receiver whose text is accepted as the
    -- receiver, the data field is built, and cut at the separators it is the name
    -- `ESDTNFTTransfer`, the identifier, the nonce, the amount and the receiver's key in
    -- hexadecimal, and the fields of the call.
    pub fields-nft_transfer :
        (bech32 : Bech32Lib) (destination : Address)
        → from_bech32 bech32 destination.bech32_address ≡ ok destination
        → All IsByte destination.pk
        → (data_field : Bytes) × (nonce : Field p.nonce) × (value : Field n) × (NftTransfer.build
              lib bech32
              (record { payment = p; destination = destination.bech32_address; contract_call = c })
            ≡ ok data_field)
          × (fields data_field
              ≡ codes "ESDTNFTTransfer"
                ∷ string_to_hex p.token_identifier
                ∷ nonce.text
                ∷ value.text
                ∷ string_to_hex destination.pk
                ∷ call_fields c)
    unfolding NftTransfer.build add_string add_address
    fields-nft_transfer bech32 destination read key =
        let (nonce, added_nonce) = u64-Field p.nonce in
        let (value, added_value) = number-Field p.value n r in
        let args =
          string_to_hex p.token_identifier
          ∷ nonce.text
          ∷ value.text
          ∷ string_to_hex destination.pk
          ∷ [] in
        (
          codes "ESDTNFTTransfer" ++ as_on_data (record { args = args }) ++ call_on_data c,
          nonce,
          value,
          rw (added_nonce, added_value, read),
          fields-payload (codes "ESDTNFTTransfer") args c (omega arith)
              (
                string_to_hex-IsHexDigit _ token,
                (nonce.hex, (value.hex, (string_to_hex-IsHexDigit _ key, tt))),
              )
              is,
        )
