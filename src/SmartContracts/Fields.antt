-- ===== src/SmartContracts/Fields.antt =====
-- The data field cut at its separators: nothing that the code writes between two of them has one.
use mx_sdk_cpp.Common.{
  ℕ, ◌/◌, ◌%◌, ◌<◌, ◌≡◌, ◌≢◌, refl, ap, ◌∙◌, sym, Bool, true, false, List, [], ◌∷◌, ◌++◌,
  append_assoc, append-nil, Bytes, is_empty, All, All-append, if◌then◌else◌, ◌==◌, ok, arith,
  IsByte,
}
use mx_sdk_cpp.Common.Bits.{all_below, all_below_sound}
use mx_sdk_cpp.Common.Digits.{number}
use mx_sdk_cpp.Utils.Hex.{string_to_hex, hex_to_string}
use mx_sdk_cpp.Utils.Hex.RoundTrip.{digit, pairs, string_to_hex-pairs, hex_to_string-string_to_hex}
use mx_sdk_cpp.Utils.Hex.Errors.{IsHexDigit, is_hex_digit}
use mx_sdk_cpp.Libraries.Integers.{IntegerLib, IntegerLaws}
use mx_sdk_cpp.BigUInt.{BigUInt}
use mx_sdk_cpp.BigUInt.Arithmetic.{Represents, hex_value_exact}
use mx_sdk_cpp.Account.Address.{Address}
use mx_sdk_cpp.SmartContracts.{
  ScArguments, ContractCall, add_string, add_big_uint, add_address, on_data_loop, as_on_data,
  call_on_data,
}

abbrev pub separator : ℕ
separator = b'@'

abbrev put_front : ℕ → List Bytes → List Bytes
put_front c [] = (c ∷ []) ∷ []
put_front c (f ∷ fs) = (c ∷ f) ∷ fs

-- The parts between the separators.
unfoldable pub fields : Bytes → List Bytes
fields [] = [] ∷ []
fields (c ∷ s) = if c == separator then [] ∷ fields s else put_front c (fields s)

-- The separators in front of each part.
abbrev pub separated : List Bytes → Bytes
separated [] = []
separated (f ∷ fs) = separator ∷ f ++ separated fs

abbrev pub Lacks : Bytes → Type 0
Lacks = All (λ c. c ≢ separator)

pub fields-separated :
    (front : Bytes) (fs : List Bytes)
    → Lacks front
    → All Lacks fs
    → fields (front ++ separated fs) ≡ front ∷ fs
unfolding fields
fields-separated [] [] h hs = refl
fields-separated [] (f ∷ fs) h (hf, hs) = ap (◌∷◌ []) (fields-separated f fs hf hs)
fields-separated (c ∷ front) fs (hc, h) hs = ground (arith, fields-separated front fs h hs)

IsHexDigit→Lacks : (s : Bytes) → All IsHexDigit s → Lacks s
IsHexDigit→Lacks [] h = tt
IsHexDigit→Lacks (c ∷ s) (hc, h) = (λ e. ground arith, IsHexDigit→Lacks s h)

digits_are_hex : all_below 16 (λ v. is_hex_digit (digit v)) ≡ true
unfolding all_below
digits_are_hex = refl

digit-IsHexDigit : (v : ℕ) → v < 16 → IsHexDigit (digit v)
digit-IsHexDigit v small = all_below_sound 16 (λ w. is_hex_digit (digit w)) v digits_are_hex small

pairs-IsHexDigit : (s : Bytes) → All IsByte s → All IsHexDigit (pairs s)
unfolding pairs
pairs-IsHexDigit [] h = tt
pairs-IsHexDigit (c ∷ s) (hc, hs) = (
  digit-IsHexDigit (c / 16) (omega arith),
  (digit-IsHexDigit (c % 16) (omega arith), pairs-IsHexDigit s hs),
)

pub string_to_hex-IsHexDigit : (s : Bytes) → All IsByte s → All IsHexDigit (string_to_hex s)
string_to_hex-IsHexDigit s h = rw string_to_hex-pairs (pairs-IsHexDigit s h)

pub string_to_hex-Lacks : (s : Bytes) → All IsByte s → Lacks (string_to_hex s)
string_to_hex-Lacks s h = IsHexDigit→Lacks _ (string_to_hex-IsHexDigit s h)

-- Arguments in hexadecimal digits.
abbrev pub IsValid : ScArguments → Type 0
IsValid a = All (All IsHexDigit) a.args

pub hex_args-Lacks : (fs : List Bytes) → All (All IsHexDigit) fs → All Lacks fs
hex_args-Lacks [] h = tt
hex_args-Lacks (f ∷ fs) (hf, hs) = (IsHexDigit→Lacks f hf, hex_args-Lacks fs hs)

on_data_loop-separated : (fs : List Bytes) (ret : Bytes) → on_data_loop fs ret ≡ ret ++ separated fs
unfolding on_data_loop
on_data_loop-separated [] ret = sym (append-nil ret)
on_data_loop-separated (f ∷ fs) ret = on_data_loop-separated fs _ ∙ simp append_assoc

pub as_on_data-separated : (a : ScArguments) → as_on_data a ≡ separated a.args
unfolding as_on_data
as_on_data-separated a = on_data_loop-separated a.args []

pub separated-append : (fs gs : List Bytes) → separated (fs ++ gs) ≡ separated fs ++ separated gs
separated-append [] gs = refl
separated-append (f ∷ fs) gs = rw (separated-append fs gs) (simp append_assoc)

-- The parts that a call adds to the data field; a call with no function adds none.
abbrev pub call_fields : ContractCall → List Bytes
call_fields c = if is_empty c.function then [] else string_to_hex c.function ∷ c.args.args

pub call_on_data-separated : (c : ContractCall) → call_on_data c ≡ separated (call_fields c)
unfolding call_on_data
call_on_data-separated c = simp as_on_data-separated (ground arith)

pub call_fields-Lacks :
    (c : ContractCall) → All IsByte c.function → IsValid c.args → All Lacks (call_fields c)
call_fields-Lacks c h v =
    let function_ok = string_to_hex-Lacks c.function h in
    let args_ok = hex_args-Lacks c.args.args v in choose (is_empty c.function) function_ok args_ok
  where
    choose :
        (b : Bool)
        → Lacks (string_to_hex c.function)
        → All Lacks c.args.args
        → All Lacks (if b then [] else string_to_hex c.function ∷ c.args.args)
    choose true f a = tt
    choose false f a = (f, a)

module _ (a : ScArguments) (v : IsValid a) where
  appended : (s : Bytes) → All IsHexDigit s → All (All IsHexDigit) (a.args ++ s ∷ [])
  appended s h = All-append (All IsHexDigit) a.args (s ∷ []) v (h, tt)

  -- Each of the three ways to add an argument keeps the arguments in hexadecimal digits, and the
  -- new argument stands for what was added.
  pub add-IsValid :
      ((s : Bytes)
        → All IsByte s
        → IsValid (add_string a s) × (hex_to_string (string_to_hex s) ≡ ok s))
      × ((lib : IntegerLib) (laws : IntegerLaws lib) (b : BigUInt) (n : ℕ)
          → Represents b n
          → (val : Bytes) × (add_big_uint lib a b ≡ ok (record { args = a.args ++ val ∷ [] }))
            × IsValid (record { args = a.args ++ val ∷ [] })
            × (number 16 val ≡ n))
      × ((x : Address) → All IsByte x.pk → IsValid (add_address a x))
  unfolding add_string add_big_uint add_address
  add-IsValid = (
    λ s h. (appended _ (string_to_hex-IsHexDigit s h), hex_to_string-string_to_hex s h),
    λ lib laws b n r.
        let (val, is, even, hex, spells) = hex_value_exact lib laws b b n n r r in
        (val, rw is, appended val hex, spells),
    λ x h. appended _ (string_to_hex-IsHexDigit x.pk h),
  )

  -- The data of arguments in hexadecimal digits behind a name with no separator is cut at the
  -- separators into the name and the arguments.
  pub fields-as_on_data :
      (name : Bytes) → Lacks name → fields (name ++ as_on_data a) ≡ name ∷ a.args
  fields-as_on_data name h =
      rw (as_on_data-separated a) (fields-separated name a.args h (hex_args-Lacks a.args v))
