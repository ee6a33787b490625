-- ===== src/Common/Results.antt =====
-- The outcome of code that throws, with the class of the exception and its message.
use mathlib.Core.Path.{◌≡◌, refl}
use mathlib.Core.Logic.{◌⊎◌, inl, inr}
use mathlib.Core.Bool.{Bool, true, false}
use mx_sdk_cpp.Common.Lists.{Bytes}

-- `library` is an exception of a library that the code lets through.
pub data Error : Type 0 where
  invalid_argument runtime_error length_error library : Bytes → Error

-- `e.what()`
abbrev pub what : Error → Bytes
what (invalid_argument m) = m
what (runtime_error m) = m
what (length_error m) = m
what (library m) = m

pub data Result {ℓ} (A : Type ℓ) : Type ℓ where
  ok : A → Result A
  err : Error → Result A

-- `if (!test) throw error;`
abbrev pub guard : Bool → Error → Result (Unit {0})
guard false error = err error
guard true error = ok tt

-- What follows a call is left out where the call throws.
infixl 5 ◌>>=◌ ◌>>◌
abbrev pub ◌>>=◌ {ℓ κ} : {A : Type ℓ} {B : Type κ} → Result A → (A → Result B) → Result B
err e >>= next = err e
ok a >>= next = next a

abbrev pub ◌>>◌ {κ} : {B : Type κ} → Result (Unit {0}) → Result B → Result B
first >> next = first >>= (λ done. next)

-- `catch (const std::exception &e) { throw …; }`
abbrev pub rethrow {ℓ} : {A : Type ℓ} → Result A → (Error → Error) → Result A
rethrow (ok a) f = ok a
rethrow (err e) f = err (f e)

pub Result-cases {ℓ} :
    {A : Type ℓ} (r : Result A) → ((a : A) × (r ≡ ok a)) ⊎ ((e : Error) × (r ≡ err e))
Result-cases (ok a) = inl (a, refl)
Result-cases (err e) = inr (e, refl)

-- A chain that succeeds has a first part that succeeds.
pub >>=-eq-ok {ℓ κ} :
    {A : Type ℓ} {B : Type κ} (first : Result A) (next : A → Result B) {out : B}
    → (first >>= next) ≡ ok out
    → (found : A) × (first ≡ ok found) × (next found ≡ ok out)
>>=-eq-ok (err e) next done = cc
>>=-eq-ok (ok found) next done = (found, refl, done)

-- A chain whose second part throws for every value throws.
pub >>=-err {ℓ κ} :
    {A : Type ℓ} {B : Type κ} (first : Result A) (next : A → Result B)
    → ((a : A) → (e : Error) × (next a ≡ err e))
    → (e : Error) × ((first >>= next) ≡ err e)
>>=-err (err e) next h = (e, refl)
>>=-err (ok a) next h = h a

pub first-err {ℓ κ} :
    {A : Type ℓ} {B : Type κ} (first : Result A) (next : A → Result B)
    → (e : Error) × (first ≡ err e)
    → (e : Error) × ((first >>= next) ≡ err e)
first-err first next (e, h) = (e, rw h)

-- A chain that succeeds has passed its check.
pub guard-ok {κ} :
    {B : Type κ} (test : Bool) (e : Error) (next : Result B) {out : B}
    → (guard test e >> next) ≡ ok out
    → (test ≡ true) × (next ≡ ok out)
guard-ok true e next h = (refl, h)
guard-ok false e next h = absurd cc

pub same_ok {ℓ} : {A : Type ℓ} {a b : A} → ok a ≡ ok b → a ≡ b
same_ok h = cc
