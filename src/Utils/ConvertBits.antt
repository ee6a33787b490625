-- ===== src/Utils/ConvertBits.antt =====
-- src/utils/bits.cpp. `unsigned int` is a number below 2 ^ 32. The code's test `valueAsInt < 0` has no
-- counterpart, since `value & 0xff` is no negative number.
pub mod Rounds
pub mod Quintets
pub mod RoundTrip
use mx_sdk_cpp.Common.{
  ℕ, zero, suc, ◌+◌, ◌-◌, ◌*◌, ◌/◌, ◌%◌, ◌^◌, ◌≡◌, refl, Bool, true, false, ◌||◌, not, [], ◌∷◌,
  ◌++◌, Bytes, ltb, leb, ◌==◌, if◌then◌else◌, bit_and, bit_or, Result, ok, err, invalid_argument,
}
use mx_sdk_cpp.Utils.Errors.{error_msg_convert_bits}

-- (1 << k) - 1
abbrev pub ones : ℕ → ℕ
ones k = 2 ^ k % 2 ^ 32 - 1

-- `while (bits >= toBits) { bits -= toBits; ret.push_back((acc >> bits) & maxVal); }`
pub drain : ℕ → ℕ → ℕ → ℕ → Bytes → ℕ × Bytes
drain zero to acc bits ret = (bits, ret)
drain (suc fuel) to acc bits ret =
    let rest =
      drain fuel to acc (bits - to) (ret ++ bit_and (acc / 2 ^ (bits - to)) (ones to) % 256 ∷ []) in
    if leb to bits then rest else (bits, ret)

-- What the code does behind the loop over the input.
pub finish : ℕ → ℕ → Bool → ℕ → ℕ → Bytes → Result Bytes
finish from to true acc bits ret =
    if ltb 0 bits
    then ok (ret ++ bit_and (acc * 2 ^ (to - bits) % 2 ^ 32) (ones to) % 256 ∷ [])
    else ok ret
finish from to false acc bits ret =
    if leb from bits || not (bit_and (acc * 2 ^ (to - bits) % 2 ^ 32) (ones to) == 0)
    then err (invalid_argument error_msg_convert_bits)
    else ok ret

module _ (from to : ℕ) (padded : Bool) where
  -- (acc << fromBits | valueAsInt) & maxAcc
  abbrev pub absorb : ℕ → ℕ → ℕ
  absorb acc value = bit_and (bit_or (acc * 2 ^ from % 2 ^ 32) value) (ones (from + to - 1))

  -- `drain` takes `bits` rounds at most.
  pub convert_loop : Bytes → ℕ → ℕ → Bytes → Result Bytes
  unfolding drain finish
  convert_loop [] acc bits ret = finish from to padded acc bits ret
  convert_loop (value ∷ rest) acc bits ret =
      let value_as_int = bit_and value 0xff in
      let acc' = absorb acc value_as_int in
      let (bits', ret') = drain (bits + from) to acc' (bits + from) ret in
      let tail = convert_loop rest acc' bits' ret' in
      if value_as_int / 2 ^ from == 0 then tail else err (invalid_argument error_msg_convert_bits)

-- convertBits(data, fromBits, toBits, pad)
unfoldable pub convert_bits : Bytes → ℕ → ℕ → Bool → Result Bytes
unfolding convert_loop
convert_bits input from to padded = convert_loop from to padded input 0 0 []
