-- ===== src/Binary/Consumes.antt =====
-- binary.py: what a successful run says of the bytes. `Consumes m Q` says that `m` takes some bytes
-- off the front of what is left, and that they and the value stand in the relation `Q`.
use foxreq.Prelude.{ℕ, ◌≡◌, refl, sym, List, ◌++◌}
use foxreq.Prelude.Lists
use foxreq.Prelude.Lists.{
  length, length-append, length-drop, length-take, drop-drop, take-append-drop,
}
use foxreq.Prelude.Result.{Result, ok, err}
use foxreq.Binary.{Fault, Reader, Parser, remaining, ◌>>=◌, continue}

-- What a reader has not handed out yet.
abbrev pub rest : Reader → List ℕ
rest r = Lists.drop r.cursor r.bytes

abbrev pub Consumes {ℓ} : {A : Type ℓ} → Parser A → (A → List ℕ → Type 0) → Type ℓ
Consumes {A} m Q =
    (r r' : Reader) (a : A) → m r ≡ ok (a, r') → (f : List ℕ) × (rest r ≡ f ++ rest r') × Q a f

pub bind-eq-ok {ℓ κ} :
    {A : Type ℓ} {B : Type κ} (m : Parser A) (k : A → Parser B) (r r'' : Reader) (b : B)
    → (m >>= k) r ≡ ok (b, r'')
    → (a : A) × (r' : Reader) × (m r ≡ ok (a, r')) × (k a r' ≡ ok (b, r''))
unfolding ◌>>=◌
bind-eq-ok {A} {B} m k r r'' b h = go (m r) refl h
  where
    go :
        (o : Result Fault (A × Reader))
        → m r ≡ o
        → continue o k ≡ ok (b, r'')
        → (a : A) × (r' : Reader) × (m r ≡ ok (a, r')) × (k a r' ≡ ok (b, r''))
    go (ok (a, r')) e h' = (a, r', e, h')
    go (err x) e h' = absurd (cc)

pub remaining-rest : (r : Reader) → remaining r ≡ length (rest r)
unfolding remaining
remaining-rest r = sym (length-drop r.cursor r.bytes)

-- Both parts, in the order in which they run.
abbrev pub Seq {ℓ} :
    {A : Type ℓ} {B : Type 0}
    → (A → List ℕ → Type 0)
    → (A → B → List ℕ → Type 0)
    → B
    → List ℕ
    → Type ℓ
Seq {A = A} Q Q' b f = (a : A) × (f₁ f₂ : List ℕ) × (f ≡ f₁ ++ f₂) × Q a f₁ × Q' a b f₂
