-- ===== src/Base/Result.antt =====
-- Go's (value, error) results: a value, or the error's message. `do` stops at the first error.
use mathlib.Core.Path.{◌≡◌, refl}
use mathlib.Core.Logic.{◌⊎◌, inl, inr}
use mathlib.Core.Bool.{Bool, true, false}
use Prim.Native.String.{String}

pub data Result {ℓ} (A : Type ℓ) : Type ℓ where
  err : (message : String) → Result A
  ok : (value : A) → Result A

abbrev pub is_ok {ℓ} : {A : Type ℓ} → Result A → Bool
is_ok (err message) = false
is_ok (ok value) = true

-- `if test { return error }`
abbrev pub fail_if : (test : Bool) (message : String) → Result (Unit {0})
fail_if false message = ok tt
fail_if true message = err message

-- `if err != nil { return err }` after a call that returns a value.
infixl 5 ◌>>=◌
abbrev pub ◌>>=◌ {ℓ κ} : {A : Type ℓ} {B : Type κ} (m : Result A) (next : A → Result B) → Result B
err message >>= next = err message
ok value >>= next = next value

-- The same after a call that returns only an error.
infixl 5 ◌>>◌
abbrev pub ◌>>◌ {κ} : {B : Type κ} (m : Result (Unit {0})) (next : Result B) → Result B
err message >> next = err message
ok done >> next = next

-- A result taken apart, with the equation.
pub Result-cases {ℓ} :
    {A : Type ℓ} (r : Result A) → ((e : String) × (r ≡ err e)) ⊎ ((a : A) × (r ≡ ok a))
Result-cases (err e) = inl (e, refl)
Result-cases (ok a) = inr (a, refl)

-- A chain that succeeds, taken apart: what its first part returned, and the rest of it.
pub first_of_chain {ℓ κ} :
    {A : Type ℓ} {B : Type κ} {b : B} (first : Result A) (next : A → Result B)
    → (first >>= next) ≡ ok b
    → (value : A) × (first ≡ ok value) × (next value ≡ ok b)
first_of_chain (ok value) next passed = (value, refl, passed)
first_of_chain (err message) next passed = cc

pub both_of_chain {κ} :
    {B : Type κ} (m : Result (Unit {0})) (r : Result B) {b : B}
    → (m >> r) ≡ ok b
    → (m ≡ ok tt) × (r ≡ ok b)
both_of_chain (err e) r h = cc
both_of_chain (ok _) r h = (refl, h)

pub fail_if-eq-ok : (test : Bool) (e : String) → fail_if test e ≡ ok tt → test ≡ false
fail_if-eq-ok false e h = refl
fail_if-eq-ok true e h = cc
