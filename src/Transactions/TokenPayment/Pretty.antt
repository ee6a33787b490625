-- ===== src/Transactions/TokenPayment/Pretty.antt =====
-- `toPrettyString`, and that `fungibleFromAmount` reads the amount in it back.
use mx_sdk_cpp.Common.{
  ℕ, zero, suc, ◌+◌, ◌-◌, ◌*◌, ◌/◌, ◌%◌, ◌^◌, ◌≤◌, ◌<◌, ◌≡◌, ◌≢◌, refl, ap, sym, ◌∙◌, false, [],
  ◌∷◌, ◌++◌, Bytes, codes, length, take, All-append, ok, arith, length-append, length-replicate,
  append_assoc, max,
}
use mathlib.Core.List.{cons-ne-nil}
use native.Mathlib.Nat.{div-add-mod', mod-lt, pow-suc}
use mx_sdk_cpp.Common.Digits.{
  IsDecimalDigit, number, print, print-IsDecimalDigit, number-print, print-zero,
}
use mx_sdk_cpp.Common.Decimals.{
  print-ne-nil, zeros, number-zeros-append, number_from-zeros, length-print, print-Leads,
}
use mx_sdk_cpp.Libraries.Integers.{IntegerLib, IntegerLaws}
use mx_sdk_cpp.BigUInt.{BigUInt}
use mx_sdk_cpp.BigUInt.Arithmetic.{from_string_digits, Represents, divmod_exact}
use mx_sdk_cpp.Transactions.TokenPayment.{
  TokenPayment, point, has_leading_zeroes, big_uint_from_val, to_pretty_string, missing_zeroes,
}
use mx_sdk_cpp.Transactions.TokenPayment.Amounts.{zeros_digits, take_all, fraction_units}
use mx_sdk_cpp.Transactions.TokenPayment.Accept.{
  IsWhole, IsPointed, leading-needless, whole_text, from_val_pointed,
}

-- `n` units of 10 ^ -d: the whole part, a point, and `d` digits (one, where `d` is 0).
abbrev pub fraction_digits : ℕ → ℕ → Bytes
fraction_digits part d = zeros (d - length (print 10 part)) ++ print 10 part

abbrev pub pretty_amount : ℕ → ℕ → Bytes
pretty_amount n d = print 10 (n / 10 ^ d) ++ point ∷ fraction_digits (n % 10 ^ d) d

power_pos : (d : ℕ) → 0 < 10 ^ d
power_pos zero = omega arith
power_pos (suc d) = simp pow-suc (omega (arith, power_pos d))

shortest_print : (n : ℕ) → has_leading_zeroes (print 10 n) ≡ false
unfolding has_leading_zeroes
shortest_print zero = rw print-zero
shortest_print (suc n) =
    let (c, t, e, ne) = print-Leads (suc n) (λ e. omega arith) in rw e (first c t ne)
  where
    first : (c : ℕ) (t : Bytes) → c ≢ b'0' → has_leading_zeroes (c ∷ t) ≡ false
    first c [] ne = refl
    first c (x ∷ t) ne = ground arith

length-fraction_digits : (part d : ℕ) → part < 10 ^ d → length (fraction_digits part d) ≡ max d 1
length-fraction_digits part zero small =
    let nothing : part ≡ 0 = omega arith in rw (nothing, print-zero 10) (omega arith)
length-fraction_digits part (suc d) small =
    let printed = print 10 part in
    let k = suc d - length printed in
    length-append (zeros k) printed
    ∙ omega (arith, length-replicate {A = ℕ} k b'0', length-print part (suc d) small (omega arith))

longest : (part d : ℕ) → part < 10 ^ d → length (print 10 part) ≤ max d 1
longest part zero small =
    let nothing : part ≡ 0 = omega arith in rw (nothing, print-zero 10) (omega arith)
longest part (suc d) small = omega (arith, length-print part (suc d) small (omega arith))

fraction_digits_units :
    (part d : ℕ) → part < 10 ^ d → fraction_units (fraction_digits part d) d ≡ part
fraction_digits_units part zero small = omega arith
fraction_digits_units part (suc d) small =
    let text = fraction_digits part (suc d) in
    let size : length text ≡ suc d = length-fraction_digits part (suc d) small ∙ omega arith in
    let all_of_it : take (suc d) text ≡ text = take_all (suc d) text (omega arith) in
    let spelt : number 10 text ≡ part =
      number-zeros-append (suc d - length (print 10 part)) (print 10 part)
      ∙ number-print 10 (omega arith) (omega arith) part in
    let none_missing : suc d - length text ≡ 0 = omega arith in
    rw (all_of_it, spelt, none_missing) (omega arith)

pretty-IsPointed : (m part d : ℕ) → part < 10 ^ d → IsPointed (print 10 m) (fraction_digits part d)
pretty-IsPointed m part d small = record {
  whole_digits = print-IsDecimalDigit m;
  fraction_digits =
      All-append IsDecimalDigit (zeros (d - length (print 10 part))) (print 10 part)
        (zeros_digits (d - length (print 10 part))) (print-IsDecimalDigit part);
  some_digit = λ e.
      let size : length (print 10 m ++ fraction_digits part d) ≡ 0 = ap length e in
      omega (arith, length-append (print 10 m) (fraction_digits part d), print-ne-nil m);
  shortest = sym (leading-needless (print 10 m) (print-IsDecimalDigit m)) ∙ shortest_print m;
}

missing_zeroes-exact :
    (d size : ℕ)
    → d < 2 ^ 31 - 1
    → 1 ≤ size
    → size ≤ max d 1
    → missing_zeroes (suc d) size ≡ d - size
missing_zeroes-exact d size few least most = ground arith

module _ (lib : IntegerLib) (laws : IntegerLaws lib) where
  -- The denominator is 1 with `d` zeros.
  denominator_text :
      (d : ℕ) → big_uint_from_val lib (codes "1") d ≡ ok (record { value = b'1' ∷ zeros d })
  unfolding has_leading_zeroes
  denominator_text d =
      whole_text lib (codes "1") d one
      ∙ from_string_digits lib laws (b'1' ∷ zeros d) (refl, zeros_digits d)
    where
      one : IsWhole (codes "1")
      one = record { digits = (refl, tt); some_digit = cons-ne-nil _ _; shortest = refl }

  denominator-Represents : (d : ℕ) → Represents (record { value = b'1' ∷ zeros d }) (10 ^ d)
  denominator-Represents d = record {
    digits = (refl, zeros_digits d);
    spells = number_from-zeros 1 d ∙ omega arith;
  }

  -- Given the laws of the class `integer`, for a payment of `n` units with fewer than 2 ^ 31 - 1
  -- decimals `to_pretty_string` returns the whole part, a point, the fraction with all its digits,
  -- a blank and the token's identifier.
  pub to_pretty_string_exact :
      (p : TokenPayment) (n : ℕ)
      → Represents p.value n
      → p.num_decimals < 2 ^ 31 - 1
      → to_pretty_string lib p
        ≡ ok (pretty_amount n p.num_decimals ++ codes " " ++ p.token_identifier)
  unfolding to_pretty_string
  to_pretty_string_exact p n r few =
      let d = p.num_decimals in
      let part = n % 10 ^ d in
      let small : part < 10 ^ d = mod-lt n (power_pos d) in
      let divided =
        divmod_exact lib laws p.value (record { value = b'1' ∷ zeros d }) n (10 ^ d) r
          (denominator-Represents d) (λ e. omega (arith, power_pos d)) in
      let count : missing_zeroes (suc (length (zeros d))) (length (print 10 part))
          ≡ d - length (print 10 part) =
        rw (length-replicate {A = ℕ} d b'0') (
          missing_zeroes-exact d (length (print 10 part)) few (print-ne-nil part)
            (longest part d small)) in
      rw (denominator_text d, divided.0, count) (simp append_assoc)

  pub from_val-pretty_amount :
      (n d : ℕ)
      → d < 2 ^ 31
      → (r : BigUInt) × (big_uint_from_val lib (pretty_amount n d) d ≡ ok r) × Represents r n
  from_val-pretty_amount n d few =
      let part = n % 10 ^ d in
      let small : part < 10 ^ d = mod-lt n (power_pos d) in
      let (r, parsed, is) =
        from_val_pointed lib laws (print 10 (n / 10 ^ d)) (fraction_digits part d) d
          (pretty-IsPointed (n / 10 ^ d) part d small) (omega arith) in
      let total : number 10 (print 10 (n / 10 ^ d)) * 10 ^ d
            + fraction_units (fraction_digits part d) d
          ≡ n =
        rw
          (
            number-print 10 (omega arith) (omega arith) (n / 10 ^ d),
            fraction_digits_units part d small,
          )
          (div-add-mod' n (10 ^ d)) in
      (r, parsed, record { digits = is.digits; spells = is.spells ∙ total })

  -- Given the laws of the class `integer`, for a payment of `n` units with fewer than 2 ^ 31 - 1
  -- decimals `to_pretty_string` returns an amount, a blank and the token's identifier, and that
  -- amount, read with the payment's decimals, is accepted and stands for `n`.
  pub from_val-to_pretty_string :
      (p : TokenPayment) (n : ℕ)
      → Represents p.value n
      → p.num_decimals < 2 ^ 31 - 1
      → (amount : Bytes) × (v : BigUInt) × (to_pretty_string lib p
          ≡ ok (amount ++ codes " " ++ p.token_identifier))
        × (big_uint_from_val lib amount p.num_decimals ≡ ok v)
        × Represents v n
  from_val-to_pretty_string p n r few =
      let (v, parsed, is) = from_val-pretty_amount n p.num_decimals (omega arith) in
      (pretty_amount n p.num_decimals, v, to_pretty_string_exact p n r few, parsed, is)
