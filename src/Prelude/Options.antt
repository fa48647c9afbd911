-- ===== src/Prelude/Options.antt =====
-- Steps that give a value or nothing.
use mathlib.Core.Path.{◌≡◌, refl}
use mathlib.Core.Option.{Option, none, some}

infixl 5 ◌>>=◌ ◌>>◌
abbrev pub ◌>>=◌ {ℓ κ} : {A : Type ℓ} {B : Type κ} → Option A → (A → Option B) → Option B
none >>= f = none
some a >>= f = f a

abbrev pub ◌>>◌ {ℓ κ} : {A : Type ℓ} {B : Type κ} → Option A → Option B → Option B
m >> k = m >>= λ _. k

-- A chain that gives a value had a first step that did.
pub bind-eq-some {ℓ κ} :
    {A : Type ℓ} {B : Type κ} (first : Option A) (rest : A → Option B) (b : B)
    → (first >>= rest) ≡ some b
    → (a : A) × (first ≡ some a) × (rest a ≡ some b)
bind-eq-some (some a) rest b e = (a, refl, e)
bind-eq-some none rest b e = absurd (cc)
