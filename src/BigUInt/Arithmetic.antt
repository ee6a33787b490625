-- ===== src/BigUInt/Arithmetic.antt =====
-- The operations of `BigUInt` compute with the numbers that the decimal texts spell.
use mx_sdk_cpp.Common.{
  if◌then◌else◌, ◌⊎◌, leb, ℕ, ◌+◌, ◌-◌, ◌*◌, ◌/◌, ◌%◌, ◌≤◌, ◌<◌, ◌≡◌, refl, ap, ◌∙◌, ◌≢◌, inl, inr,
  true, false, ◌∷◌, ◌++◌, Bytes, codes, All, length, ltb, ◌==◌, ==_iff, Bool-cases, Error, ok, err,
  invalid_argument, arith,
}
use mx_sdk_cpp.Common.Int.{pos, negsuc, ◌-ℤ◌, is_negative}
use mx_sdk_cpp.Common.Digits.{
  print, number, IsDecimalDigit, print-IsDecimalDigit, number-print, print-All,
}
use mx_sdk_cpp.Utils.Errors.{error_msg_value, error_msg_negative_value}
use mx_sdk_cpp.Utils.Hex.Errors.{IsHexDigit}
use mx_sdk_cpp.Libraries.Integers.{IntegerLib, IntegerLaws}
use mx_sdk_cpp.BigUInt.{
  BigUInt, from_string, add, sub, mul, div, divmod, less, greater, get_hex_value,
}

-- A text of digits that spells `n`; the code keeps leading zeros.
pub record Represents (b : BigUInt) (n : ℕ) : Type 0 where
  pub digits : All IsDecimalDigit b.value
  pub spells : number 10 b.value ≡ n

-- The number in its shortest form.
abbrev pub of_number : ℕ → BigUInt
of_number n = record { value = print 10 n }

pub of_number-Represents : (n : ℕ) → Represents (of_number n) n
of_number-Represents n = record {
  digits = print-IsDecimalDigit n;
  spells = number-print 10 (omega arith) (omega arith) n;
}

module _ (lib : IntegerLib) (laws : IntegerLaws lib) where
  open laws use {value}

  -- The constructor takes any text of digits as it stands.
  pub from_string_digits :
      (s : Bytes) → All IsDecimalDigit s → from_string lib s ≡ ok (record { value = s })
  unfolding from_string
  from_string_digits s h =
      let (i, parsed, is) = laws.parse_digits s h in
      let positive : lib.negative i ≡ false = laws.negative_value i ∙ ap is_negative is in
      rw (parsed, positive)

  pub from_string_minus :
      (n : ℕ)
      → n ≢ 0
      → from_string lib (b'-' ∷ print 10 n)
        ≡ err (
            invalid_argument (
              error_msg_value
              ++ (b'-' ∷ print 10 n)
              ++ codes ", reason: "
              ++ error_msg_negative_value))
  unfolding from_string
  from_string_minus n h =
      let (i, parsed, is) = laws.parse_minus n h in
      let below : is_negative (pos 0 -ℤ pos n) ≡ true = ground arith in
      let minus : lib.negative i ≡ true = laws.negative_value i ∙ ap is_negative is ∙ below in
      rw (parsed, minus)

  -- What an operation that ends in a natural number hands to the constructor.
  result_number :
      (i : lib.Integer) (n : ℕ)
      → value i ≡ pos n
      → from_string lib (lib.str i 10) ≡ ok (of_number n)
  result_number i n h =
      rw (laws.str_pos i n 10 h (inl refl))
        (from_string_digits (print 10 n) (print-IsDecimalDigit n))

  module _ (a b : BigUInt) (m n : ℕ) (ra : Represents a m) (rb : Represents b n) where
    read :
        (c : BigUInt) (k : ℕ)
        → Represents c k
        → (i : lib.Integer) × (lib.parse c.value ≡ ok i) × (value i ≡ pos k)
    read c k r =
        let (i, parsed, is) = laws.parse_digits c.value r.digits in
        (i, parsed, is ∙ ap pos r.spells)

    arithmetic_exact :
        (add lib a b ≡ ok (of_number (m + n)))
        × (mul lib a b ≡ ok (of_number (m * n)))
        × (less lib a b ≡ ok (ltb m n))
        × (greater lib a b ≡ ok (ltb n m))
    unfolding add mul less greater
    arithmetic_exact =
        let (i, parsed_a, is_m) = read a m ra in
        let (j, parsed_b, is_n) = read b n rb in
        let sum : value (lib.add i j) ≡ pos (m + n) =
          laws.value-add i j ∙ rw (is_m, is_n) (ground arith) in
        let product : value (lib.mul i j) ≡ pos (m * n) =
          laws.value-mul i j ∙ rw (is_m, is_n) (ground arith) in
        let lt : lib.lt i j ≡ ltb m n = laws.lt_value i j ∙ rw (is_m, is_n) (ground arith) in
        let gt : lib.gt i j ≡ ltb n m = laws.gt_value i j ∙ rw (is_m, is_n) (ground arith) in
        (
          rw (parsed_a, parsed_b) (result_number _ _ sum),
          rw (parsed_a, parsed_b) (result_number _ _ product),
          rw (parsed_a, parsed_b, lt),
          rw (parsed_a, parsed_b, gt),
        )

    sub_exact : n ≤ m → sub lib a b ≡ ok (of_number (m - n))
    unfolding sub
    sub_exact h =
        let (i, parsed_a, is_m) = read a m ra in
        let (j, parsed_b, is_n) = read b n rb in
        let difference : value (lib.sub i j) ≡ pos (m - n) =
          laws.value-sub i j ∙ rw (is_m, is_n) (ground arith) in
        rw (parsed_a, parsed_b) (result_number _ _ difference)

    sub_underflow :
        m < n
        → sub lib a b
          ≡ err (
              invalid_argument (
                error_msg_value
                ++ (b'-' ∷ print 10 (n - m))
                ++ codes ", reason: "
                ++ error_msg_negative_value))
    unfolding sub
    sub_underflow h =
        let (i, parsed_a, is_m) = read a m ra in
        let (j, parsed_b, is_n) = read b n rb in
        let difference : value (lib.sub i j) ≡ negsuc (n - m - 1) =
          laws.value-sub i j ∙ rw (is_m, is_n) (ground arith) in
        let size : n - m - 1 + 1 ≡ n - m = omega arith in
        rw (parsed_a, parsed_b, laws.str_negsuc _ _ difference, size)
          (from_string_minus (n - m) (omega arith))

    pub divmod_exact :
        n ≢ 0
        → (divmod lib a b ≡ ok (of_number (m / n), of_number (m % n)))
          × (div lib a b ≡ ok (of_number (m / n)))
    unfolding div divmod
    divmod_exact h =
        let (i, parsed_a, is_m) = read a m ra in
        let (j, parsed_b, is_n) = read b n rb in
        let (q, r, divided, is_q, is_r) = laws.value-divmod i j m n is_m is_n h in
        (
          rw (parsed_a, parsed_b, divided, result_number q _ is_q, result_number r _ is_r),
          rw (parsed_a, parsed_b, divided, result_number q _ is_q, result_number r _ is_r),
        )

    divmod_by_zero : n ≡ 0 → (e : Error) × (divmod lib a b ≡ err e) × (div lib a b ≡ err e)
    unfolding div divmod
    divmod_by_zero h =
        let (i, parsed_a, is_m) = read a m ra in
        let (j, parsed_b, is_n) = read b n rb in
        let (e, refused) = laws.divmod_zero i j (is_n ∙ ap pos h) in
        (e, rw (parsed_a, parsed_b, refused), rw (parsed_a, parsed_b, refused))

    pub hex_value_exact :
        (s : Bytes) × (get_hex_value lib a ≡ ok s)
        × (length s % 2 ≡ 0)
        × All IsHexDigit s
        × (number 16 s ≡ m)
    unfolding get_hex_value
    hex_value_exact =
        let (i, parsed, is) = read a m ra in
        let shown : lib.str i 16 ≡ print 16 m = laws.str_pos i m 16 is (inr refl) in
        let spelt : number 16 (print 16 m) ≡ m = number-print 16 (omega arith) (omega arith) m in
        let all_hex : All IsHexDigit (print 16 m) =
          print-All 16 (omega arith) (omega arith) IsHexDigit (λ d h. ground arith) m in
        elim (Bool-cases (length (print 16 m) % 2 == 0)) [
          | inl even ↦ (print 16 m, rw (parsed, shown, even), (==_iff _ 0).0 even, all_hex, spelt)
          | inr odd ↦
              (b'0' ∷ print 16 m, rw (parsed, shown, odd), ground arith, (refl, all_hex), spelt)
        ]

    sub_cases : sub lib a b ≡ (
        if leb n m
        then ok (of_number (m - n))
        else err (
            invalid_argument (
              error_msg_value
              ++ (b'-' ∷ print 10 (n - m))
              ++ codes ", reason: "
              ++ error_msg_negative_value)))
    sub_cases = elim (Bool-cases (leb n m)) [
      | inl small ↦ rw small (sub_exact (ground arith))
      | inr large ↦ rw large (sub_underflow (ground arith))
    ]

    divmod_cases :
        ((n ≢ 0)
          × (divmod lib a b ≡ ok (of_number (m / n), of_number (m % n)))
          × (div lib a b ≡ ok (of_number (m / n))))
        ⊎ ((n ≡ 0) × ((e : Error) × (divmod lib a b ≡ err e) × (div lib a b ≡ err e)))
    divmod_cases = elim (Bool-cases (n == 0)) [
      | inl zero_divisor ↦ let h : n ≡ 0 = ground arith in inr (h, divmod_by_zero h)
      | inr divisor ↦ let h : n ≢ 0 = ground arith in let (q, d) = divmod_exact h in inl (h, q, d)
    ]

    -- Given the laws of the class `integer`, on texts of digits `add`, `mul` and both comparisons
    -- are those of the numbers that they spell. `sub` is the difference, or the error with the
    -- negative difference in its message. `divmod` and `div` are quotient and remainder where the
    -- divisor is not 0, and fail where it is. The hexadecimal form has an even length, hexadecimal
    -- digits only, and spells the number.
    pub operations_exact :
        (add lib a b ≡ ok (of_number (m + n)))
        × (mul lib a b ≡ ok (of_number (m * n)))
        × (less lib a b ≡ ok (ltb m n))
        × (greater lib a b ≡ ok (ltb n m))
        × (sub lib a b ≡ (
            if leb n m
            then ok (of_number (m - n))
            else err (
                invalid_argument (
                  error_msg_value
                  ++ (b'-' ∷ print 10 (n - m))
                  ++ codes ", reason: "
                  ++ error_msg_negative_value))))
        × (((n ≢ 0)
              × (divmod lib a b ≡ ok (of_number (m / n), of_number (m % n)))
              × (div lib a b ≡ ok (of_number (m / n))))
            ⊎ ((n ≡ 0) × ((e : Error) × (divmod lib a b ≡ err e) × (div lib a b ≡ err e))))
        × ((s : Bytes) × (get_hex_value lib a ≡ ok s)
            × (length s % 2 ≡ 0)
            × All IsHexDigit s
            × (number 16 s ≡ m))
    operations_exact =
        let (sum, product, lt, gt) = arithmetic_exact in
        (sum, product, lt, gt, sub_cases, divmod_cases, hex_value_exact)
