-- ===== src/BigUInt.antt =====
-- src/internal/biguint.cpp and include/internal/biguint.h: a natural number kept as decimal text, over
-- the class `integer`. An exception of `integer` that the code does not catch passes through.
pub mod Arithmetic
use mx_sdk_cpp.Common.{
  ℕ, ◌%◌, ◌≡◌, Bool, true, not, ◌∷◌, ◌++◌, Bytes, codes, length, ◌==◌, if◌then◌else◌, bytes_eq,
  Result, ok, err, invalid_argument, ◌>>=◌, ◌>>◌, guard, rethrow, what,
}
use mx_sdk_cpp.Common.Digits.{print}
use mx_sdk_cpp.Utils.Errors.{
  error_msg_value, error_msg_negative_value, error_msg_cannot_convert_to_base,
}
use mx_sdk_cpp.Libraries.Integers.{IntegerLib}

-- m_value
pub record BigUInt : Type 0 where
  pub value : Bytes

-- BigUInt(uint64_t)
unfoldable pub from_u64 : ℕ → BigUInt
from_u64 n = record { value = print 10 n }

-- operator==
unfoldable pub equal : BigUInt → BigUInt → Bool
equal a b = bytes_eq a.value b.value

module _ (lib : IntegerLib) where
  -- BigUInt(std::string)
  unfoldable pub from_string : Bytes → Result BigUInt
  from_string s = do
    rethrow
        (do
          number ← lib.parse s
          guard (not (lib.negative number)) (invalid_argument error_msg_negative_value))
        (λ e. invalid_argument (error_msg_value ++ s ++ codes ", reason: " ++ what e))
    ok (record { value = s })

  unfoldable pub get_hex_value : BigUInt → Result Bytes
  get_hex_value b = do
    ret ←
        rethrow (do number ← lib.parse b.value; ok (lib.str number 16))
          (λ e. invalid_argument (
            error_msg_cannot_convert_to_base
            ++ print 10 16
            ++ codes ", value: "
            ++ b.value
            ++ codes ", reason: "
            ++ what e))
    ok (if length ret % 2 == 0 then ret else b'0' ∷ ret)

  pub mul : BigUInt → BigUInt → Result BigUInt
  mul a b = do
    v1 ← lib.parse a.value
    v2 ← lib.parse b.value
    from_string (lib.str (lib.mul v1 v2) 10)

  pub divmod : BigUInt → BigUInt → Result (BigUInt × BigUInt)
  divmod a b = do
    v1 ← lib.parse a.value
    v2 ← lib.parse b.value
    res ← lib.divmod v1 v2
    ret1 ← from_string (lib.str res.0 10)
    ret2 ← from_string (lib.str res.1 10)
    ok (ret1, ret2)

  -- operator/
  pub div : BigUInt → BigUInt → Result BigUInt
  unfolding divmod
  div a b = do res ← divmod a b; ok res.0

  -- operator>
  pub greater : BigUInt → BigUInt → Result Bool
  greater a b = do v1 ← lib.parse a.value; v2 ← lib.parse b.value; ok (lib.gt v1 v2)

  -- operator<
  pub less : BigUInt → BigUInt → Result Bool
  less a b = do v1 ← lib.parse a.value; v2 ← lib.parse b.value; ok (lib.lt v1 v2)

  pub sub : BigUInt → BigUInt → Result BigUInt
  sub a b = do
    v1 ← lib.parse a.value
    v2 ← lib.parse b.value
    from_string (lib.str (lib.sub v1 v2) 10)

  pub add : BigUInt → BigUInt → Result BigUInt
  add a b = do
    v1 ← lib.parse a.value
    v2 ← lib.parse b.value
    from_string (lib.str (lib.add v1 v2) 10)
