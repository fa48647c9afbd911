-- ===== src/Exec.antt =====
-- Methods that change a state and may raise one of the package's exceptions. What was changed before
-- a raise stays changed, so the state comes back beside the exception too.
pub mod Rules
use foxreq.Prelude.Result.{Result, ok, err}
use foxreq.Errors.{FoxreqError}

-- With any type of exceptions, and with the package's.
abbrev pub ExecOf {ℓ κ} : Type 0 → Type ℓ → Type κ → Type (ℓ ⊔ κ)
ExecOf E S A = S → Result E A × S

abbrev pub Exec {ℓ κ} : Type ℓ → Type κ → Type (ℓ ⊔ κ)
Exec S A = ExecOf FoxreqError S A

module _ {ℓ κ} {E : Type 0} {S : Type ℓ} {A : Type κ} where
  abbrev pub pure : A → ExecOf E S A
  pure a s = (ok a, s)

  abbrev pub raise : E → ExecOf E S A
  raise e s = (err e, s)

module _ {ℓ κ ι} {E : Type 0} {S : Type ℓ} {A : Type κ} {B : Type ι} where
  abbrev pub continue : Result E A → (A → ExecOf E S B) → ExecOf E S B
  continue (ok a) f s = f a s
  continue (err e) f s = (err e, s)

  infixl 5 ◌>>=◌ ◌>>◌
  abbrev pub ◌>>=◌ : ExecOf E S A → (A → ExecOf E S B) → ExecOf E S B
  ◌>>=◌ m f s = let (r, s') = m s in continue r f s'

  abbrev pub ◌>>◌ : ExecOf E S A → ExecOf E S B → ExecOf E S B
  m >> k = m >>= λ _. k
