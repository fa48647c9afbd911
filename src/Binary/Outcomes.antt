-- ===== src/Binary/Outcomes.antt =====
-- binary.py: the same as in Reads, where the value depends on where the reader stands, as offsets do.
use foxreq.Prelude.{
  ℕ, zero, suc, ◌≤◌, ◌<◌, ◌≡◌, refl, sym, ap, ◌∙◌, List, [], ◌∷◌, ◌++◌, map, lt→ltb, append-nil,
  append_assoc, arith,
}
use foxreq.Prelude.Lists.{length, length-append, join, All}
use foxreq.Prelude.Result.{Result, ok}
use foxreq.Prelude.Text.{Text}
use foxreq.Binary.{Fault, Reader, Parser, ◌>>=◌, get_offset, get_remaining, loop, while_remaining}
use foxreq.Binary.Reads.{between, Reads, ReadsEnd, between_assoc, remaining-between}

abbrev pub Outcome {ℓ} : {A : Type ℓ} → Parser A → List ℕ → (A → Type 0) → Type ℓ
Outcome {A} m f P =
    (before rest : List ℕ) (base : ℕ) (path : Text)
    → (a : A) × P a
      × (m (between before (f ++ rest) base path) ≡ ok (a, between (before ++ f) rest base path))

-- The same where nothing follows.
abbrev pub OutcomeEnd {ℓ} : {A : Type ℓ} → Parser A → List ℕ → (A → Type 0) → Type ℓ
OutcomeEnd {A} m f P =
    (before : List ℕ) (base : ℕ) (path : Text)
    → (a : A) × P a × (m (between before f base path) ≡ ok (a, between (before ++ f) [] base path))

module _ {ℓ κ} {A : Type ℓ} {B : Type κ} where
  pub bind-Outcome :
      (m : Parser A) (k : A → Parser B) (f g : List ℕ) (a : A) (P : B → Type 0)
      → Reads m f a
      → Outcome (k a) g P
      → Outcome (m >>= k) (f ++ g) P
  unfolding ◌>>=◌
  bind-Outcome m k f g a P hm hk before rest base path =
      let (b, p, e) = hk (before ++ f) rest base path in
      (
        b,
        p,
        rw (append_assoc f g rest, hm before (g ++ rest) base path)
            (e ∙ between_assoc b before f g rest base path),
      )

  pub bind-OutcomeEnd :
      (m : Parser A) (k : A → Parser B) (f g : List ℕ) (a : A) (P : B → Type 0)
      → Reads m f a
      → OutcomeEnd (k a) g P
      → OutcomeEnd (m >>= k) (f ++ g) P
  unfolding ◌>>=◌
  bind-OutcomeEnd m k f g a P hm hk before base path =
      let (b, p, e) = hk (before ++ f) base path in
      (b, p, rw (hm before g base path) (e ∙ between_assoc b before f g [] base path))

module _ {ℓ} {A : Type ℓ} where
  pub offset-OutcomeEnd :
      (k : ℕ → Parser A) (g : List ℕ) (P : A → Type 0)
      → ((at : ℕ) → OutcomeEnd (k at) g P)
      → OutcomeEnd (get_offset >>= k) g P
  unfolding ◌>>=◌ get_offset
  offset-OutcomeEnd k g P h before base path = h _ before base path

  pub ReadsEnd-OutcomeEnd :
      (m : Parser A) (f : List ℕ) (a : A) (P : A → Type 0) → ReadsEnd m f a → P a → OutcomeEnd m f P
  ReadsEnd-OutcomeEnd m f a P h p before base path = (a, p, h before base path)

  pub offset-Outcome :
      (k : ℕ → Parser A) (g : List ℕ) (P : A → Type 0)
      → ((at : ℕ) → Outcome (k at) g P)
      → Outcome (get_offset >>= k) g P
  unfolding ◌>>=◌ get_offset
  offset-Outcome k g P h before rest base path = h _ before rest base path

  pub Reads-Outcome :
      (m : Parser A) (f : List ℕ) (a : A) (P : A → Type 0) → Reads m f a → P a → Outcome m f P
  Reads-Outcome m f a P h p before rest base path = (a, p, h before rest base path)

at_end {ℓ} :
    {A : Type ℓ} (a : A) (before : List ℕ) (base : ℕ) (path : Text)
    → ◌≡◌ {A = Result Fault (A × Reader)}
        (ok (a, between before [] base path))
        (ok (a, between (before ++ []) [] base path))
at_end a before base path = ap (λ w. ok (a, between w [] base path)) (sym (append-nil before))

-- A loop over the pieces of some items, each of which takes the loop's variables on by `Step`.
module _ {ℓ} {S X : Type ℓ} (body : S → Parser S) (piece : X → List ℕ)
    (Step : S → X → S → Type 0) where
  abbrev pub Steps : S → List X → S → Type ℓ
  Steps s [] u = s ≡ u
  Steps s (x ∷ xs) u = (t : S) × Step s x t × Steps t xs u

  module _ (Fits : X → Type 0) (some_bytes : (x : X) → Fits x → 0 < length (piece x)) where
    loop-Outcome :
        ((s : S) (x : X) → Fits x → Outcome (body s) (piece x) (Step s x))
        → (xs : List X) (fuel : ℕ) (s : S) → length (join (map piece xs)) ≤ fuel
        → All Fits xs
        → (before : List ℕ) (base : ℕ) (path : Text)
        → (u : S) × Steps s xs u
          × (loop fuel body s (between before (join (map piece xs)) base path)
              ≡ ok (u, between (before ++ join (map piece xs)) [] base path))
    unfolding loop
    loop-Outcome each [] zero s h p before base path =
        (s, refl, rw remaining-between (at_end s before base path))
    loop-Outcome each [] (suc fuel) s h p before base path =
        (s, refl, rw remaining-between (at_end s before base path))
    loop-Outcome each (x ∷ xs) zero s h p before base path =
        absurd (omega (arith, length-append (piece x) (join (map piece xs)), some_bytes x p.0))
    loop-Outcome each (x ∷ xs) (suc fuel) s h p before base path =
        let left = join (map piece xs) in
        let nonempty : 0 < length (piece x) = some_bytes x p.0 in
        let (t, q, e) = each s x p.0 before left base path in
        let (u, qs, e') =
          loop-Outcome each xs fuel t (omega (arith, length-append (piece x) left)) p.1
            (before ++ piece x) base path in
        (
          u,
          (t, q, qs),
          rw
              (
                remaining-between,
                lt→ltb 0 (length (piece x ++ left)) (omega (arith, length-append (piece x) left)),
                e,
              )
              (e' ∙ between_assoc u before (piece x) left [] base path),
        )

    pub while_remaining-Outcome :
        ((s : S) (x : X) → Fits x → Outcome (body s) (piece x) (Step s x))
        → (xs : List X) (s : S) → All Fits xs
        → (before : List ℕ) (base : ℕ) (path : Text)
        → (u : S) × Steps s xs u
          × (while_remaining body s (between before (join (map piece xs)) base path)
              ≡ ok (u, between (before ++ join (map piece xs)) [] base path))
    unfolding while_remaining ◌>>=◌ get_remaining
    while_remaining-Outcome each xs s p before base path =
        rw remaining-between (loop-Outcome each xs _ s (omega arith) p before base path)
