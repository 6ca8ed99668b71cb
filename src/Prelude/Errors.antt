-- ===== src/Prelude/Errors.antt =====
-- Go's `(value, error)` returns. An error is a message, or a message that wraps an error (`%w`).
use mathlib.Core.Path.{◌≡◌, refl}
use mathlib.Core.Logic.{◌⊎◌, inl, inr}
use mathlib.Core.Option.{Option, none, some}
use mathlib.Core.Bool.{Bool, true, false}
use stprov.Prelude.Strings.{Text}

pub data Error : Type 0 where
  msg : Text → Error
  wrap : Text → Error → Error

-- What a function with an error returns.
pub data Result {ℓ} (A : Type ℓ) : Type ℓ where
  err : Error → Result A
  ok : A → Result A

module _ {ℓ κ} {A : Type ℓ} {B : Type κ} where
  infixl 5 ◌>>=◌
  abbrev pub ◌>>=◌ : Result A → (A → Result B) → Result B
  err e >>= next = err e
  ok value >>= next = next value

module _ {κ} {B : Type κ} where
  infixl 5 ◌>>◌
  abbrev pub ◌>>◌ : Result (Unit {0}) → Result B → Result B
  checks >> next = checks >>= λ done. next

-- `if test { return err }`
abbrev pub fail_if : Bool → Error → Result (Unit {0})
fail_if true e = err e
fail_if false e = ok tt

-- `if err != nil { return fmt.Errorf("t: %w", err) }`
abbrev pub context {ℓ} : {A : Type ℓ} → Text → Result A → Result A
context t (ok a) = ok a
context t (err e) = err (wrap t e)

-- `if err != nil { return fmt.Errorf(…) }`, where the error that came is dropped
abbrev pub instead {ℓ} : {A : Type ℓ} → Error → Result A → Result A
instead e (ok a) = ok a
instead e (err _) = err e

-- A nil pointer that the caller turns into an error.
abbrev pub or_error {ℓ} : {A : Type ℓ} → Error → Option A → Result A
or_error e none = err e
or_error e (some a) = ok a

pub Result-cases {ℓ} :
    {A : Type ℓ} (r : Result A) → ((a : A) × (r ≡ ok a)) ⊎ ((e : Error) × (r ≡ err e))
Result-cases (ok a) = inl (a, refl)
Result-cases (err e) = inr (e, refl)
