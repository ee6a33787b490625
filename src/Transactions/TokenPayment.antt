-- ===== src/Transactions/TokenPayment.antt =====
-- src/transaction/token_payment.cpp and include/transaction/token_payment.h. A conversion of a
-- `size_t` to `int` keeps the low 32 bits; what is negative then becomes no zeros.
pub mod Amounts
pub mod Accept
pub mod Refuse
pub mod Pretty
pub mod Canonical
use mx_sdk_cpp.Common.{
  ℕ, zero, suc, ◌+◌, ◌-◌, ◌%◌, ◌^◌, ◌≡◌, refl, Bool, true, false, not, ◌&&◌, [], ◌∷◌, ◌++◌, Bytes,
  codes, length, take, drop, is_empty, ltb, leb, ◌==◌, if◌then◌else◌, bytes_eq, Result, ok, err,
  invalid_argument, ◌>>=◌, ◌>>◌, guard,
}
use mx_sdk_cpp.Common.Digits.{is_decimal_digit}
use mx_sdk_cpp.Common.Decimals.{zeros}
use mx_sdk_cpp.Utils.Errors.{error_msg_value}
use mx_sdk_cpp.Libraries.Integers.{IntegerLib}
use mx_sdk_cpp.BigUInt.{BigUInt, from_string, divmod}

abbrev pub point : ℕ
point = b'.'

is_zero : ℕ → Bool
is_zero c = c == b'0'

is_point : ℕ → Bool
is_point c = c == point

unfoldable pub has_leading_zeroes : Bytes → Bool
unfolding is_zero is_point
has_leading_zeroes [] = false
has_leading_zeroes (first ∷ []) = false
has_leading_zeroes (first ∷ second ∷ s) = is_zero first && not (is_point second)

pub remove_point : Bytes → Bytes
remove_point [] = []
remove_point (c ∷ s) = if c == point then remove_point s else c ∷ remove_point s

-- `while (it != val.end() && std::isdigit(*it)) ++it;` reaches the end.
pub digits_to_end : Bytes → Bool
digits_to_end [] = true
digits_to_end (c ∷ s) = is_decimal_digit c && digits_to_end s

pub is_valid_number : Bytes → Bool
unfolding has_leading_zeroes remove_point digits_to_end
is_valid_number s =
    if has_leading_zeroes s
    then false
    else not (is_empty (remove_point s)) && digits_to_end (remove_point s)

-- std::count(value.begin(), value.end(), '.')
pub point_count : Bytes → ℕ
point_count [] = 0
point_count (c ∷ s) = if c == point then suc (point_count s) else point_count s

-- value.find_last_of('.'), where there is a point
pub last_point : Bytes → ℕ
unfolding point_count
last_point [] = 0
last_point (c ∷ s) = if point_count s == 0 then 0 else suc (last_point s)

-- std::max(int(n), 0)
abbrev pub to_count : ℕ → ℕ
to_count n = if ltb (n % 2 ^ 32) (2 ^ 31) then n % 2 ^ 32 else 0

-- The fraction with as many digits as the token has decimals.
pub fit_fraction : Bytes → ℕ → Bytes
fit_fraction second num_decimals =
    if ltb num_decimals (length second)
    then take num_decimals second
    else second ++ zeros (to_count (num_decimals - length second))

module _ (lib : IntegerLib) where
  pub big_uint_from_val : Bytes → ℕ → Result BigUInt
  unfolding is_valid_number point_count last_point fit_fraction
  big_uint_from_val value num_decimals =
      if ltb 1 (point_count value)
      then err (invalid_argument (error_msg_value ++ value))
      else if not (is_valid_number value)
      then err (invalid_argument (error_msg_value ++ value))
      else if point_count value == 0
      then from_string lib (value ++ zeros num_decimals)
      else let dot = last_point value in
        let first = take dot value in
        let first' = if bytes_eq first (codes "0") then [] else first in
        from_string lib (first' ++ fit_fraction (drop (dot + 1) value) num_decimals)

pub record TokenPayment : Type 0 where
  pub token_identifier : Bytes
  pub value : BigUInt
  pub nonce : ℕ
  pub num_decimals : ℕ

-- TokenPayment(tokenIdentifier, nonce, value, numDecimals)
abbrev payment : Bytes → ℕ → BigUInt → ℕ → TokenPayment
payment t n v d = record { token_identifier = t; value = v; nonce = n; num_decimals = d }

unfoldable pub fungible_from_big_uint : Bytes → BigUInt → ℕ → TokenPayment
fungible_from_big_uint t v d = payment t 0 v d

pub semi_fungible : Bytes → ℕ → BigUInt → TokenPayment
semi_fungible t n quantity = payment t n quantity 0

pub meta_esdt_from_big_uint : Bytes → ℕ → BigUInt → ℕ → TokenPayment
meta_esdt_from_big_uint t n v d = payment t n v d

-- toString()
pub to_string : TokenPayment → Bytes
to_string p = p.value.value

-- `int(size_t - size_t) - 1`, and no zeros where that is negative
abbrev pub missing_zeroes : ℕ → ℕ → ℕ
missing_zeroes whole part = to_count (whole + 2 ^ 64 - part) - 1

module _ (lib : IntegerLib) where
  unfoldable pub fungible_from_amount : Bytes → Bytes → ℕ → Result TokenPayment
  fungible_from_amount t amount d = do v ← big_uint_from_val lib amount d; ok (payment t 0 v d)

  pub non_fungible : Bytes → ℕ → Result TokenPayment
  non_fungible t n = do one ← from_string lib (codes "1"); ok (payment t n one 0)

  pub meta_esdt_from_amount : Bytes → ℕ → Bytes → ℕ → Result TokenPayment
  meta_esdt_from_amount t n amount d = do v ← big_uint_from_val lib amount d; ok (payment t n v d)

  pub to_pretty_string : TokenPayment → Result Bytes
  to_pretty_string p = do
    denominator ← big_uint_from_val lib (codes "1") p.num_decimals
    parts ← divmod lib p.value denominator
    ok (
        parts.0.value
        ++ codes "."
        ++ (zeros (missing_zeroes (length denominator.value) (length parts.1.value))
            ++ parts.1.value)
        ++ codes " "
        ++ p.token_identifier)
