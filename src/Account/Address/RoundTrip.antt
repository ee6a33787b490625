-- ===== src/Account/Address/RoundTrip.antt =====
-- Public keys and their bech32 texts.
use mx_sdk_cpp.Common.{
  ◌+◌, ◌*◌, ◌≤◌, ◌<◌, ◌≡◌, refl, false, [], ◌∷◌, Bytes, length, IsByte, All, ok, arith,
}
use mx_sdk_cpp.Utils.ConvertBits.{convert_bits}
use mx_sdk_cpp.Utils.ConvertBits.Quintets.{quintets, quintets-lt, convert_bits-eq-quintets}
use mx_sdk_cpp.Utils.ConvertBits.RoundTrip.{convert_bits-convert_bits}
use mx_sdk_cpp.Libraries.Bech32.{Bech32Lib, Bech32Laws}
use mx_sdk_cpp.Account.Address.{Address, hrp, public_key_length, from_public_key, from_bech32}

length-quintets : (s : Bytes) → 5 * length (quintets s) < 8 * length s + 5
unfolding quintets
length-quintets [] = omega arith
length-quintets (a ∷ []) = omega arith
length-quintets (a ∷ b ∷ []) = omega arith
length-quintets (a ∷ b ∷ c ∷ []) = omega arith
length-quintets (a ∷ b ∷ c ∷ d ∷ []) = omega arith
length-quintets (a ∷ b ∷ c ∷ d ∷ e ∷ s) = omega (arith, length-quintets s)

back : (s : Bytes) → All IsByte s → convert_bits (quintets s) 5 8 false ≡ ok s
back s h = rw (convert_bits-eq-quintets s h) at (convert_bits-convert_bits s h)

module _ (lib : Bech32Lib) (laws : Bech32Laws lib) where
  decoded :
      (pk : Bytes)
      → All IsByte pk
      → length pk ≤ 50
      → lib.decode (lib.encode hrp (quintets pk)) ≡ (hrp, quintets pk)
  decoded pk h short =
      laws.decode-encode hrp (quintets pk) (omega arith) (ground arith) (quintets-lt pk h)
        (omega (arith, length-quintets pk))

  -- Given the laws of the bech32 library, every text that encodes 50 bytes at most under the
  -- prefix `erd` is an address with those bytes as its key, whatever their number is.
  pub from_bech32_any_length :
      (pk : Bytes)
      → All IsByte pk
      → length pk ≤ 50
      → from_bech32 lib (lib.encode hrp (quintets pk))
        ≡ ok (record { pk = pk; bech32_address = lib.encode hrp (quintets pk) })
  unfolding from_bech32
  from_bech32_any_length pk h short = rw (decoded pk h short, back pk h)

  pub from_public_key-quintets :
      (pk : Bytes)
      → All IsByte pk
      → length pk ≡ public_key_length
      → from_public_key lib pk
        ≡ ok (record { pk = pk; bech32_address = lib.encode hrp (quintets pk) })
  unfolding from_public_key
  from_public_key-quintets pk h size = rw (size, convert_bits-eq-quintets pk h)

  -- Given the laws of the bech32 library, a public key of 32 bytes has an address with that key,
  -- and the address's bech32 text is read back as the same address.
  pub from_bech32-from_public_key :
      (pk : Bytes)
      → All IsByte pk
      → length pk ≡ public_key_length
      → (a : Address) × (from_public_key lib pk ≡ ok a)
        × (a.pk ≡ pk)
        × (from_bech32 lib a.bech32_address ≡ ok a)
  from_bech32-from_public_key pk h size = (
    record { pk = pk; bech32_address = lib.encode hrp (quintets pk) },
    from_public_key-quintets pk h size,
    refl,
    from_bech32_any_length pk h (omega arith),
  )
