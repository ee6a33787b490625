-- ===== src/Tests/Payments.antt =====
-- Amounts, payments and gas at concrete inputs.
use mathlib.Core.List.{cons-ne-nil}
use mx_sdk_cpp.Common.{
  ◌⊎◌, ℕ, ◌+◌, ◌-◌, ◌*◌, ◌/◌, ◌%◌, ◌^◌, ◌<◌, ◌≡◌, ◌≢◌, refl, ap, sym, inl, inr, false, [], ◌∷◌,
  ◌++◌, Bytes, codes, length, All, Error, ok, err, invalid_argument, ltb, arith,
}
use mx_sdk_cpp.Common.Digits.{print, number, IsDecimalDigit}
use mx_sdk_cpp.Utils.Errors.{error_msg_value, error_msg_negative_value}
use mx_sdk_cpp.Utils.Hex.Errors.{IsHexDigit}
use mx_sdk_cpp.BigUInt
use mx_sdk_cpp.BigUInt.{BigUInt}
use mx_sdk_cpp.BigUInt.Arithmetic.{Represents, of_number, of_number-Represents, operations_exact}
use mx_sdk_cpp.Transactions.TokenPayment.{
  TokenPayment, point, big_uint_from_val, to_pretty_string, has_leading_zeroes,
}
use mx_sdk_cpp.Transactions.TokenPayment.Amounts.{fraction_units}
use mx_sdk_cpp.Transactions.TokenPayment.Accept.{
  IsWhole, IsPointed, from_val_whole, from_val_pointed,
}
use mx_sdk_cpp.Transactions.TokenPayment.Refuse.{IsAmount, from_val_refuses}
use mx_sdk_cpp.Transactions.TokenPayment.Pretty.{
  pretty_amount, to_pretty_string_exact, from_val-to_pretty_string,
}
use mx_sdk_cpp.Transactions.TokenPayment.Canonical.{from_val_not_shortest}
use mx_sdk_cpp.Transactions.Gas.{
  GasEstimator, default_mainnet, for_egld_transfer, for_esdt_transfer, for_esdt_nft_transfer,
  for_multi_esdt_nft_transfer,
}
use mx_sdk_cpp.Transactions.Gas.Bounds.{estimates_exact, esdt_estimates_wrap}
use mx_sdk_cpp.Tests.Integers.{integers, integer_laws}

operations_exact_example :
    (BigUInt.add integers (of_number 25) (of_number 300) ≡ ok (of_number (25 + 300)))
    × (BigUInt.mul integers (of_number 25) (of_number 300) ≡ ok (of_number (25 * 300)))
    × (BigUInt.less integers (of_number 25) (of_number 300) ≡ ok (ltb 25 300))
    × (BigUInt.greater integers (of_number 25) (of_number 300) ≡ ok (ltb 300 25))
    × (BigUInt.sub integers (of_number 25) (of_number 300)
        ≡ err (
            invalid_argument (
              error_msg_value
              ++ (b'-' ∷ print 10 (300 - 25))
              ++ codes ", reason: "
              ++ error_msg_negative_value)))
    × (((◌≢◌ {A = ℕ} 300 0)
          × (BigUInt.divmod integers (of_number 25) (of_number 300)
              ≡ ok (of_number (25 / 300), of_number (25 % 300)))
          × (BigUInt.div integers (of_number 25) (of_number 300) ≡ ok (of_number (25 / 300))))
        ⊎ ((◌≡◌ {A = ℕ} 300 0)
            × ((e : Error) × (BigUInt.divmod integers (of_number 25) (of_number 300) ≡ err e)
                × (BigUInt.div integers (of_number 25) (of_number 300) ≡ err e))))
    × ((s : Bytes) × (BigUInt.get_hex_value integers (of_number 25) ≡ ok s)
        × (length s % 2 ≡ 0)
        × All IsHexDigit s
        × (number 16 s ≡ 25))
operations_exact_example =
    operations_exact integers integer_laws (of_number 25) (of_number 300) 25 300
      (of_number-Represents 25) (of_number-Represents 300)

twelve-IsWhole : IsWhole (codes "12")
unfolding has_leading_zeroes
twelve-IsWhole = record { digits = ground arith; some_digit = cons-ne-nil _ _; shortest = refl }

from_val_whole_example :
    (r : BigUInt) × (big_uint_from_val integers (codes "12") 6 ≡ ok r)
    × Represents r (number 10 (codes "12") * 10 ^ 6)
from_val_whole_example = from_val_whole integers integer_laws (codes "12") 6 twelve-IsWhole

one_half-IsPointed : IsPointed (codes "1") (codes "50")
unfolding has_leading_zeroes
one_half-IsPointed = record {
  whole_digits = ground arith;
  fraction_digits = ground arith;
  some_digit = cons-ne-nil _ _;
  shortest = refl;
}

from_val_pointed_example :
    (r : BigUInt) × (big_uint_from_val integers (codes "1" ++ point ∷ codes "50") 6 ≡ ok r)
    × Represents r (number 10 (codes "1") * 10 ^ 6 + fraction_units (codes "50") 6)
from_val_pointed_example =
    from_val_pointed integers integer_laws (codes "1") (codes "50") 6 one_half-IsPointed
      (omega arith)

ends_with_point : (a b : Bytes) → a ++ point ∷ b ≢ []
ends_with_point [] b e = cc
ends_with_point (c ∷ a) b e = cc

letter_pointed : (a b : Bytes) → codes "x" ≢ a ++ point ∷ b
letter_pointed [] b e = absurd (ground (arith, ap head e))
  where
    head : Bytes → ℕ
    head [] = 0
    head (c ∷ s) = c
letter_pointed (c ∷ a) b e = ends_with_point a b (ap tail (sym e))
  where
    tail : Bytes → Bytes
    tail [] = []
    tail (c ∷ s) = s

letter-IsAmount : ¬ IsAmount (codes "x")
letter-IsAmount (inl whole) = absurd (ground (arith, whole.digits))
letter-IsAmount (inr (a, b, e, pointed)) = letter_pointed a b e

from_val_refuses_example :
    big_uint_from_val integers (codes "x") 6 ≡ err (invalid_argument (error_msg_value ++ codes "x"))
from_val_refuses_example = from_val_refuses integers (codes "x") 6 letter-IsAmount

abbrev two_hundred : TokenPayment
two_hundred = record {
  token_identifier = codes "COUNTER-8b028f";
  value = of_number 200;
  nonce = 0;
  num_decimals = 2;
}

to_pretty_string_exact_example :
    to_pretty_string integers two_hundred
    ≡ ok (pretty_amount 200 two_hundred.num_decimals ++ codes " " ++ two_hundred.token_identifier)
to_pretty_string_exact_example =
    to_pretty_string_exact integers integer_laws two_hundred 200 (of_number-Represents 200)
      (omega arith)

from_val_not_shortest_example :
    (r : BigUInt) × (big_uint_from_val integers (codes "0.0" ++ codes "1") 2 ≡ ok r)
    × ((n : ℕ) → BigUInt.equal r (of_number n) ≡ false)
from_val_not_shortest_example =
    from_val_not_shortest integers integer_laws (codes "1") 2 one_digits (omega arith) (omega arith)
  where
    one_digits : All IsDecimalDigit (codes "1")
    one_digits = ground arith

abbrev mainnet : GasEstimator
mainnet = record { network_config = default_mainnet }

estimates_exact_example :
    (for_egld_transfer mainnet 10 ≡ 50000 + 1500 * 10)
    × (for_esdt_transfer mainnet 10 ≡ 50000 + 1500 * 10 + 300000)
    × (for_esdt_nft_transfer mainnet 10 ≡ 50000 + 1500 * 10 + 1000000)
    × (for_multi_esdt_nft_transfer mainnet 10 3 ≡ 50000 + 1500 * 10 + 1000000 * 3)
estimates_exact_example = estimates_exact mainnet 10 3 (omega arith) (omega arith)

abbrev high_minimum : GasEstimator
high_minimum = record { network_config = record default_mainnet { min_gas_limit = 4294900000 } }

esdt_estimates_wrap_example :
    (for_esdt_transfer high_minimum 10 < for_egld_transfer high_minimum 10)
    × (for_esdt_nft_transfer high_minimum 10 < for_egld_transfer high_minimum 10)
esdt_estimates_wrap_example =
    esdt_estimates_wrap high_minimum 10 (omega arith) (omega arith) (omega arith)

from_val-to_pretty_string_example :
    (amount : Bytes) × (v : BigUInt) × (to_pretty_string integers two_hundred
      ≡ ok (amount ++ codes " " ++ two_hundred.token_identifier))
    × (big_uint_from_val integers amount 2 ≡ ok v)
    × Represents v 200
from_val-to_pretty_string_example =
    from_val-to_pretty_string integers integer_laws two_hundred 200 (of_number-Represents 200)
      (omega arith)
