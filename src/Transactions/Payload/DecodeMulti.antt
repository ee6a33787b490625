-- ===== src/Transactions/Payload/DecodeMulti.antt =====
-- The data field of a transfer of several tokens, cut at the separators.
use mx_sdk_cpp.Common.{
  ℕ, ◌≡◌, refl, ◌∙◌, List, [], ◌∷◌, ◌++◌, append_assoc, append-nil, Bytes, codes, length, All,
  IsByte, ok, arith,
}
use mx_sdk_cpp.Utils.Hex.{string_to_hex}
use mx_sdk_cpp.Utils.Hex.Errors.{IsHexDigit}
use mx_sdk_cpp.Libraries.Integers.{IntegerLib, IntegerLaws}
use mx_sdk_cpp.Libraries.Bech32.{Bech32Lib}
use mx_sdk_cpp.BigUInt.Arithmetic.{Represents}
use mx_sdk_cpp.Account.Address.{Address, from_bech32}
use mx_sdk_cpp.SmartContracts.{ContractCall, add_string, add_address, as_on_data, call_on_data}
use mx_sdk_cpp.SmartContracts.Fields.{fields, call_fields, string_to_hex-IsHexDigit}
use mx_sdk_cpp.Transactions.TokenPayment.{TokenPayment}
use mx_sdk_cpp.Transactions.Payload.MultiTransfer
use mx_sdk_cpp.Transactions.Payload.Decode.{Field, IsCall, fields-payload, number-Field, u64-Field}

-- A payment whose amount is a number of units and whose identifier is a byte string.
pub record IsPayment (p : TokenPayment) : Type 0 where
  pub units : ℕ
  pub amount : Represents p.value units
  pub token : All IsByte p.token_identifier

-- The three fields of each payment, in the order of the payments.
abbrev pub PaymentFields : (ps : List TokenPayment) → All IsPayment ps → List Bytes → Type 0
PaymentFields [] _ fs = fs ≡ []
PaymentFields (p ∷ ps) (h, hs) fs =
    (nonce : Field p.nonce) × (value : Field h.units) × (rest : List Bytes) × (fs
      ≡ string_to_hex p.token_identifier ∷ nonce.text ∷ value.text ∷ rest)
    × PaymentFields ps hs rest

module _ (lib : IntegerLib) (laws : IntegerLaws lib) where
  add_payments-PaymentFields :
      (ps : List TokenPayment) (hs : All IsPayment ps) (args : List Bytes)
      → (fs : List Bytes) × (MultiTransfer.add_payments lib (record { args = args }) ps
          ≡ ok (record { args = args ++ fs }))
        × PaymentFields ps hs fs
        × All (All IsHexDigit) fs
  unfolding MultiTransfer.add_payments add_string
  add_payments-PaymentFields [] hs args = ([], rw append-nil, refl, tt)
  add_payments-PaymentFields (p ∷ ps) (h, hs) args =
      let (nonce, added_nonce) = u64-Field lib laws p.nonce in
      let (value, added_value) = number-Field lib laws p.value h.units h.amount in
      let token = string_to_hex p.token_identifier in
      let (rest, added, are, hex) =
        add_payments-PaymentFields ps hs
          (((args ++ token ∷ []) ++ nonce.text ∷ []) ++ value.text ∷ []) in
      (
        token ∷ nonce.text ∷ value.text ∷ rest,
        rw (added_nonce, added_value) (added ∙ simp append_assoc),
        (nonce, value, rest, refl, are),
        (string_to_hex-IsHexDigit _ h.token, (nonce.hex, (value.hex, hex))),
      )

  -- Given the laws of the class `integer`, for payments, a receiver's key and a call that come
  -- from bytes, and a receiver whose text is accepted as the receiver, the data field is built,
  -- and cut at the separators it is the name `MultiESDTNFTTransfer`, the receiver's key, the
  -- number of payments, the identifier, nonce and amount of each payment in order, and the fields
  -- of the call.
  pub fields-multi_transfer :
      (bech32 : Bech32Lib) (ps : List TokenPayment) (hs : All IsPayment ps) (destination : Address)
      (c : ContractCall)
      → from_bech32 bech32 destination.bech32_address ≡ ok destination
      → All IsByte destination.pk
      → IsCall c
      → (data_field : Bytes) × (count : Field (length ps)) × (fs : List Bytes)
        × (MultiTransfer.build lib bech32 (record {
          payments = ps;
          destination = destination.bech32_address;
          contract_call = c;
        })
            ≡ ok data_field)
        × (fields data_field
            ≡ codes "MultiESDTNFTTransfer" ∷ string_to_hex destination.pk ∷ count.text ∷ fs
              ++ call_fields c)
        × PaymentFields ps hs fs
  unfolding MultiTransfer.build add_address
  fields-multi_transfer bech32 ps hs destination c read key is =
      let (count, counted) = u64-Field lib laws (length ps) in
      let front = string_to_hex destination.pk ∷ count.text ∷ [] in
      let (fs, added, are, hex) = add_payments-PaymentFields ps hs front in
      (
        codes "MultiESDTNFTTransfer"
            ++ as_on_data (record { args = front ++ fs })
            ++ call_on_data c,
        count,
        fs,
        rw (read, counted, added),
        fields-payload (codes "MultiESDTNFTTransfer") (front ++ fs) c (omega arith)
            (string_to_hex-IsHexDigit _ key, (count.hex, hex)) is,
        are,
      )
