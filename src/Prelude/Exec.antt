-- ===== src/Prelude/Exec.antt =====
-- Code that changes a state and may return an error: the state that was reached comes back beside
-- the error too, since what was written before an error stays written.
use stprov.Prelude.Errors.{Error, Result, ok, err}
use stprov.Prelude.Strings.{Text}

abbrev pub Exec {ℓ κ} : Type ℓ → Type κ → Type (ℓ ⊔ κ)
Exec S A = S → Result A × S

module _ {ℓ κ} {S : Type ℓ} {A : Type κ} where
  abbrev pub pure : A → Exec S A
  pure a s = (ok a, s)

  abbrev pub raise : Error → Exec S A
  raise e s = (err e, s)

  -- a call that neither reads nor changes the state
  abbrev pub lift : Result A → Exec S A
  lift r s = (r, s)

  -- a call that reads the state
  abbrev pub reads : (S → Result A) → Exec S A
  reads f s = (f s, s)

module _ {ℓ κ μ} {S : Type ℓ} {A : Type κ} {B : Type μ} where
  abbrev pub continue : Result A → (A → Exec S B) → Exec S B
  continue (ok a) f s = f a s
  continue (err e) f s = (err e, s)

  infixl 5 ◌>>=◌ ◌>>◌
  abbrev pub ◌>>=◌ : Exec S A → (A → Exec S B) → Exec S B
  ◌>>=◌ m f s = continue (m s).0 f (m s).1

  abbrev pub ◌>>◌ : Exec S A → Exec S B → Exec S B
  m >> n = m >>= λ _. n

abbrev wrapped {κ} : {A : Type κ} → (Error → Error) → Result A → Result A
wrapped f (ok a) = ok a
wrapped f (err e) = err (f e)

module _ {ℓ κ} {S : Type ℓ} {A : Type κ} where
  -- `if err := m; err != nil { return f(err) }`
  abbrev pub context_of : (Error → Error) → Exec S A → Exec S A
  context_of f m s = (wrapped f (m s).0, (m s).1)

  abbrev pub context : Text → Exec S A → Exec S A
  context t = context_of (Error.wrap t)
