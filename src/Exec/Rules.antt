-- ===== src/Exec/Rules.antt =====
-- Rules for what a method does to the state, whatever its steps answer.
use foxreq.Prelude.{◌≡◌, refl}
use foxreq.Prelude.Result.{Result, ok, err}
use foxreq.Exec.{ExecOf, continue, ◌>>=◌}

-- The states before and after are related.
pub record Keeps {ℓ κ} {E : Type 0} {S : Type ℓ} {A : Type κ} (R : S → S → Type 0)
    (m : ExecOf E S A) : Type ℓ where
  pub keeps : (s : S) → R s (m s).1

-- The state after a run that raises nothing.
pub record Leaves {ℓ κ} {E : Type 0} {S : Type ℓ} {A : Type κ} (Q : S → Type 0) (m : ExecOf E S A)
    : Type (ℓ ⊔ κ) where
  pub leaves : (s : S) (a : A) → (m s).0 ≡ ok a → Q (m s).1

module _ {ℓ κ ι} {E : Type 0} {S : Type ℓ} {A : Type κ} {B : Type ι} (m : ExecOf E S A)
    (f : A → ExecOf E S B) where
  pub bind-Keeps :
      (R : S → S → Type 0)
      → ((s t u : S) → R s t → R t u → R s u)
      → Keeps R m
      → ((a : A) → Keeps R (f a))
      → Keeps R (m >>= f)
  bind-Keeps R trans first rest = record { keeps = λ s. after s (m s).0 (m s).1 (first.keeps s) }
    where
      after : (s : S) (r : Result E A) (t : S) → R s t → R s (continue r f t).1
      after s (ok a) t h = trans s t (f a t).1 h ((rest a).keeps t)
      after s (err e) t h = h

  pub bind-Leaves : (Q : S → Type 0) → ((a : A) → Leaves Q (f a)) → Leaves Q (m >>= f)
  bind-Leaves Q rest = record { leaves = λ s b. after b (m s).0 (m s).1 }
    where
      after : (b : B) (r : Result E A) (t : S) → (continue r f t).0 ≡ ok b → Q (continue r f t).1
      after b (ok a) t e = (rest a).leaves t b e
      after b (err x) t e = absurd (cc)

-- An invariant of the state, kept however a method ends, with what its answer satisfies.
pub record Holds {ℓ κ} {E : Type 0} {S : Type ℓ} {A : Type κ} (I : S → Type 0) (P : A → Type 0)
    (m : ExecOf E S A) : Type (ℓ ⊔ κ) where
  pub holds : (s : S) → I s → I (m s).1 × ((a : A) → (m s).0 ≡ ok a → P a)

pub bind-Holds {ℓ κ ι} :
    {E : Type 0} {S : Type ℓ} {A : Type κ} {B : Type ι} (I : S → Type 0) (P : A → Type 0)
    (Q : B → Type 0) (m : ExecOf E S A) (f : A → ExecOf E S B)
    → Holds I P m
    → ((a : A) → P a → Holds I Q (f a))
    → Holds I Q (m >>= f)
bind-Holds {E} {S} {A} {B} I P Q m f first rest = record {
  holds = λ s i. after (m s).0 (m s).1 (first.holds s i);
}
  where
    after :
        (r : Result E A) (t : S)
        → I t × ((a : A) → r ≡ ok a → P a)
        → I (continue r f t).1 × ((b : B) → (continue r f t).0 ≡ ok b → Q b)
    after (ok a) t h = (rest a (h.1 a refl)).holds t h.0
    after (err e) t h = (h.0, λ b x. absurd (cc))
