-- ===== src/Prelude/Result.antt =====
-- Code that may raise: the value, or what was raised.
use mathlib.Core.Path.{◌≡◌, refl, subst}

pub data Result {ℓ} (E : Type 0) (A : Type ℓ) : Type ℓ where
  ok : A → Result E A
  err : E → Result E A

infixl 5 ◌>>=◌ ◌>>◌
abbrev pub ◌>>=◌ {ℓ κ} :
    {E : Type 0} {A : Type ℓ} {B : Type κ} → Result E A → (A → Result E B) → Result E B
ok a >>= f = f a
err e >>= f = err e

abbrev pub ◌>>◌ {ℓ κ} :
    {E : Type 0} {A : Type ℓ} {B : Type κ} → Result E A → Result E B → Result E B
m >> k = m >>= λ _. k

-- A chain that succeeds had a first step that did.
pub bind-eq-ok {ℓ κ} :
    {E : Type 0} {A : Type ℓ} {B : Type κ} (first : Result E A) (rest : A → Result E B) (b : B)
    → (first >>= rest) ≡ ok b
    → (a : A) × (first ≡ ok a) × (rest a ≡ ok b)
bind-eq-ok (ok a) rest b e = (a, refl, e)
bind-eq-ok (err x) rest b e = absurd (cc)

-- What a chain gives, when it gives something, has a property.
pub record Ensures {ℓ} {E : Type 0} {A : Type ℓ} (P : A → Type 0) (r : Result E A) : Type ℓ where
  pub ensures : (a : A) → r ≡ ok a → P a

pub bind-Ensures {ℓ κ} :
    {E : Type 0} {A : Type ℓ} {B : Type κ} (P : B → Type 0) (first : Result E A)
    (rest : A → Result E B)
    → ((a : A) → first ≡ ok a → Ensures P (rest a))
    → Ensures P (first >>= rest)
bind-Ensures P (ok a) rest h = h a refl
bind-Ensures P (err x) rest h = record { ensures = λ b e. absurd (cc) }

pub ok-Ensures {ℓ} :
    {E : Type 0} {A : Type ℓ} (P : A → Type 0) (a : A) → P a → Ensures {E = E} P (ok a)
ok-Ensures {E} {A} P a h = record { ensures = λ b e. subst P (same b e) h }
  where
    same : (b : A) → ◌≡◌ {A = Result E A} (ok a) (ok b) → a ≡ b
    same b e = cc
