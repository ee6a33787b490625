-- ===== src/Transactions/TokenPayment/Refuse.antt =====
-- `bigUIntFromVal` refuses every other text.
use mx_sdk_cpp.Common.{
  ℕ, ◌≤◌, ◌≡◌, ◌≢◌, refl, sym, ◌∙◌, ap, subst, ◌⊎◌, inl, inr, true, false, [], ◌∷◌, ◌++◌, Bytes,
  All, is_empty, ltb, ◌==◌, ==_iff, err, invalid_argument, arith, Bool-cases,
}
use mx_sdk_cpp.Common.Digits.{IsDecimalDigit}
use mx_sdk_cpp.Utils.Errors.{error_msg_value}
use mx_sdk_cpp.Libraries.Integers.{IntegerLib}
use mx_sdk_cpp.Transactions.TokenPayment.{
  point, has_leading_zeroes, remove_point, digits_to_end, is_valid_number, point_count,
  big_uint_from_val,
}
use mx_sdk_cpp.Transactions.TokenPayment.Amounts.{digits_to_end→All}
use mx_sdk_cpp.Transactions.TokenPayment.Accept.{IsWhole, IsPointed, leading-needless}

abbrev pub IsAmount : Bytes → Type 0
IsAmount s = IsWhole s ⊎ ((a : Bytes) × (b : Bytes) × (s ≡ a ++ point ∷ b) × IsPointed a b)

kept : (s : Bytes) → point_count s ≡ 0 → remove_point s ≡ s
unfolding point_count remove_point
kept [] h = refl
kept (c ∷ s) h = ground (arith, kept s)

-- A text with one point is cut at it.
at_point :
    (s : Bytes)
    → point_count s ≡ 1
    → (a : Bytes) × (b : Bytes) × (s ≡ a ++ point ∷ b) × (remove_point s ≡ a ++ b)
unfolding point_count remove_point
at_point [] h = absurd (omega arith)
at_point (c ∷ s) h = elim (Bool-cases (c == point)) [
  | inl here ↦
      let is_point : c ≡ point = (==_iff c point).0 here in
      let last : point_count s ≡ 0 = ground arith in ([], s, rw is_point, rw here (kept s last))
  | inr there ↦
      let later : point_count s ≡ 1 = ground arith in
      let (a, b, e, f) = at_point s later in (c ∷ a, b, ap (◌∷◌ c) e, rw there (ap (◌∷◌ c) f))
]

leading_before_point :
    (a b : Bytes) → has_leading_zeroes (a ++ point ∷ b) ≡ false → has_leading_zeroes a ≡ false
unfolding has_leading_zeroes
leading_before_point [] b h = refl
leading_before_point (x ∷ []) b h = refl
leading_before_point (x ∷ y ∷ a) b h = h

All_parts :
    (a b : Bytes) → All IsDecimalDigit (a ++ b) → All IsDecimalDigit a × All IsDecimalDigit b
All_parts [] b h = (tt, h)
All_parts (c ∷ a) b (hc, h) = let (ha, hb) = All_parts a b h in ((hc, ha), hb)

valid_parts :
    (s : Bytes)
    → is_valid_number s ≡ true
    → (has_leading_zeroes s ≡ false) × (remove_point s ≢ []) × All IsDecimalDigit (remove_point s)
unfolding is_valid_number
valid_parts s h =
    let ends : digits_to_end (remove_point s) ≡ true = ground arith in
    let some_digit : is_empty (remove_point s) ≡ false = ground arith in
    (ground arith, λ e. ground arith, digits_to_end→All _ ends)

-- The tests of the code pass on amounts only.
passed→IsAmount : (s : Bytes) → point_count s ≤ 1 → is_valid_number s ≡ true → IsAmount s
passed→IsAmount s few valid =
    let (shortest, some_digit, digits) = valid_parts s valid in
    elim (Bool-cases (point_count s == 0)) [
      | inl none_at_all ↦
          let whole : remove_point s ≡ s = kept s ((==_iff _ 0).0 none_at_all) in
          inl (record {
            digits = subst (All IsDecimalDigit) whole digits;
            some_digit = subst (λ t. t ≢ []) whole some_digit;
            shortest =
                sym (leading-needless s (subst (All IsDecimalDigit) whole digits)) ∙ shortest;
          })
      | inr some_point ↦
          let one : point_count s ≡ 1 = ground arith in
          let (a, b, e, f) = at_point s one in
          let (ha, hb) = All_parts a b (subst (All IsDecimalDigit) f digits) in
          inr (
            a,
            b,
            e,
            record {
              whole_digits = ha;
              fraction_digits = hb;
              some_digit = subst (λ t. t ≢ []) f some_digit;
              shortest =
                  sym (leading-needless a ha)
                  ∙ leading_before_point a b (subst (λ t. has_leading_zeroes t ≡ false) e shortest);
            },
          )
    ]

-- A text that is neither digits nor digits around one point, with one digit at least and no
-- needless 0 in front, is refused with the text in the message.
pub from_val_refuses :
    (lib : IntegerLib) (s : Bytes) (d : ℕ)
    → ¬ IsAmount s
    → big_uint_from_val lib s d ≡ err (invalid_argument (error_msg_value ++ s))
unfolding big_uint_from_val
from_val_refuses lib s d h = elim (Bool-cases (ltb 1 (point_count s))) [
  | inl many ↦ rw many
  | inr few ↦ elim (Bool-cases (is_valid_number s)) [
    | inl valid ↦ absurd (h (passed→IsAmount s (ground arith) valid))
    | inr invalid ↦ rw (few, invalid)
  ]
]
