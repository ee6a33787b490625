-- ===== src/Libraries/Integers.antt =====
-- external/bigint, the class `integer`: arbitrary precision with a sign.
use mx_sdk_cpp.Common.{
  ℕ, ◌+◌, ◌/◌, ◌%◌, ◌≡◌, Bool, ◌∷◌, Bytes, All, Result, ok, err, ◌≢◌, ◌⊎◌, Error,
}
use mx_sdk_cpp.Common.Int.{ℤ, pos, negsuc, ◌+ℤ◌, ◌-ℤ◌, ◌*ℤ◌, is_negative, ltb_ℤ}
use mx_sdk_cpp.Common.Digits.{print, number, IsDecimalDigit}

-- `parse s` is `integer(s, 10)`, `str i base` is `i.str(base)`, `negative i` is
-- `i.sign() == integer::NEGATIVE`.
pub record IntegerLib : Type 1 where
  pub Integer : Type 0
  pub parse : Bytes → Result Integer
  pub str : Integer → ℕ → Bytes
  pub negative : Integer → Bool
  pub add : Integer → Integer → Integer
  pub sub : Integer → Integer → Integer
  pub mul : Integer → Integer → Integer
  pub divmod : Integer → Integer → Result (Integer × Integer)
  pub lt : Integer → Integer → Bool
  pub gt : Integer → Integer → Bool

-- An `integer` stands for a number of ℤ. A text of decimal digits, the empty text included, is read
-- as the number that it spells, and numbers are written with no leading zero.
pub record IntegerLaws (l : IntegerLib) : Type 0 where
  pub value : l.Integer → ℤ
  pub parse_digits :
      (s : Bytes)
      → All IsDecimalDigit s
      → (i : l.Integer) × (l.parse s ≡ ok i) × (value i ≡ pos (number 10 s))
  pub parse_minus :
      (n : ℕ)
      → n ≢ 0
      → (i : l.Integer) × (l.parse (b'-' ∷ print 10 n) ≡ ok i) × (value i ≡ pos 0 -ℤ pos n)
  pub str_pos :
      (i : l.Integer) (n base : ℕ)
      → value i ≡ pos n
      → (base ≡ 10) ⊎ (base ≡ 16)
      → l.str i base ≡ print base n
  pub str_negsuc :
      (i : l.Integer) (n : ℕ) → value i ≡ negsuc n → l.str i 10 ≡ b'-' ∷ print 10 (n + 1)
  pub negative_value : (i : l.Integer) → l.negative i ≡ is_negative (value i)
  pub value-add : (i j : l.Integer) → value (l.add i j) ≡ value i +ℤ value j
  pub value-sub : (i j : l.Integer) → value (l.sub i j) ≡ value i -ℤ value j
  pub value-mul : (i j : l.Integer) → value (l.mul i j) ≡ value i *ℤ value j
  pub value-divmod :
      (i j : l.Integer) (m n : ℕ)
      → value i ≡ pos m
      → value j ≡ pos n
      → n ≢ 0
      → (q : l.Integer) × (r : l.Integer) × (l.divmod i j ≡ ok (q, r))
        × (value q ≡ pos (m / n))
        × (value r ≡ pos (m % n))
  pub divmod_zero : (i j : l.Integer) → value j ≡ pos 0 → (e : Error) × (l.divmod i j ≡ err e)
  pub lt_value : (i j : l.Integer) → l.lt i j ≡ ltb_ℤ (value i) (value j)
  pub gt_value : (i j : l.Integer) → l.gt i j ≡ ltb_ℤ (value j) (value i)
