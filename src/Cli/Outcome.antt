-- ===== src/Cli/Outcome.antt =====
-- What a handler of the command line ends with: a value, an exception, or a null pointer that it reads
-- through, which is no exception.
use mx_sdk_cpp.Common.{◌≡◌, refl, Option, none, some, Result, ok, err, Error}

pub data Outcome {ℓ} (A : Type ℓ) : Type ℓ where
  returned : A → Outcome A
  threw : Error → Outcome A
  null_dereference : Outcome A

infixl 5 ◌>>=◌
abbrev pub ◌>>=◌ {ℓ κ} : {A : Type ℓ} {B : Type κ} → Outcome A → (A → Outcome B) → Outcome B
returned a >>= next = next a
threw e >>= next = threw e
null_dereference >>= next = null_dereference

abbrev pub of_result {ℓ} : {A : Type ℓ} → Result A → Outcome A
of_result (ok a) = returned a
of_result (err e) = threw e

-- `*pointer`
abbrev pub dereference {ℓ} : {A : Type ℓ} → Option A → Outcome A
dereference none = null_dereference
dereference (some a) = returned a

pub >>=-eq-returned {ℓ κ} :
    {A : Type ℓ} {B : Type κ} (first : Outcome A) (next : A → Outcome B) {out : B}
    → (first >>= next) ≡ returned out
    → (found : A) × (first ≡ returned found) × (next found ≡ returned out)
>>=-eq-returned (threw e) next done = absurd cc
>>=-eq-returned null_dereference next done = absurd cc
>>=-eq-returned (returned found) next done = (found, refl, done)

pub of_result-returned {ℓ} :
    {A : Type ℓ} (r : Result A) {out : A} → of_result r ≡ returned out → r ≡ ok out
of_result-returned (err e) h = absurd cc
of_result-returned (ok a) h = cc
