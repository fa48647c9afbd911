-- ===== src/Prelude/Perms.antt =====
-- Rearrangements of lists, and what keeps them.
use mathlib.Core.Path.{◌≡◌, refl, subst, ap, ap₂, ◌∙◌, sym}
use mathlib.Core.Logic.{inl, inr}
use mathlib.Core.Bool.{Bool, not}
use mathlib.Core.List.{List, [], ◌∷◌, ◌++◌, map, Permᴰ}
use Prim.Native.Nat.{suc, ◌≤◌}
use native.Mathlib.Omega.{arith}
use foxreq.Prelude.Tests.{Bool-cases}
use foxreq.Prelude.Lists.{length, keep}

module _ {ℓ} {A : Type ℓ} where
  pub perm_refl : (xs : List A) → Permᴰ xs xs
  perm_refl [] = Permᴰ.nil
  perm_refl (x ∷ xs) = Permᴰ.cons refl (perm_refl xs)

  -- A list of one item at most has no other order.
  pub perm_short : {xs ys : List A} → Permᴰ xs ys → length xs ≤ 1 → xs ≡ ys
  perm_short Permᴰ.nil h = refl
  perm_short (Permᴰ.cons {l₁ = l₁} e q) h =
      ap₂ (λ (x : A) xs. x ∷ xs) e (perm_short q (omega arith))
  perm_short (Permᴰ.swap e e') h = absurd (omega arith)
  perm_short (Permᴰ.trans q r) h =
      let same = perm_short q h in same ∙ perm_short r (subst (λ l. length l ≤ 1) same h)

module _ {ℓ} {A : Type ℓ} (p : A → Bool) where
  keep_cons :
      (a : A) (xs ys : List A)
      → Permᴰ (keep p xs) (keep p ys)
      → Permᴰ (keep p (a ∷ xs)) (keep p (a ∷ ys))
  keep_cons a xs ys r = elim (Bool-cases (p a)) [
    | inl t ↦ rw t (Permᴰ.cons refl r)
    | inr f ↦ rw f r
  ]

  keep_swap : (a b : A) (l : List A) → Permᴰ (keep p (a ∷ b ∷ l)) (keep p (b ∷ a ∷ l))
  keep_swap a b l = elim (Bool-cases (p a)) [
    | inl t ↦ elim (Bool-cases (p b)) [
      | inl u ↦ rw (t, u) (Permᴰ.swap refl refl)
      | inr u ↦ rw (t, u) (perm_refl (a ∷ keep p l))
    ]
    | inr t ↦ elim (Bool-cases (p b)) [
      | inl u ↦ rw (t, u) (perm_refl (b ∷ keep p l))
      | inr u ↦ rw (t, u) (perm_refl (keep p l))
    ]
  ]

  pub keep-perm : {xs ys : List A} → Permᴰ xs ys → Permᴰ (keep p xs) (keep p ys)
  keep-perm Permᴰ.nil = Permᴰ.nil
  keep-perm (Permᴰ.cons {a} {l₁ = l₁} {l₂ = l₂} e q) =
      subst (λ z. Permᴰ (keep p (a ∷ l₁)) (keep p (z ∷ l₂))) e (keep_cons a l₁ l₂ (keep-perm q))
  keep-perm (Permᴰ.swap {a} {b} {a' = a'} {b' = b'} {l = l} e e') =
      subst (λ z. Permᴰ (keep p (a ∷ b ∷ l)) (keep p (z ∷ b' ∷ l))) e'
        (subst (λ z. Permᴰ (keep p (a ∷ b ∷ l)) (keep p (b ∷ z ∷ l))) e (keep_swap a b l))
  keep-perm (Permᴰ.trans q r) = Permᴰ.trans (keep-perm q) (keep-perm r)

pub map-perm {ℓ κ} :
    {A : Type ℓ} {B : Type κ} (f : A → B) {xs ys : List A}
    → Permᴰ xs ys
    → Permᴰ (map f xs) (map f ys)
map-perm f Permᴰ.nil = Permᴰ.nil
map-perm f (Permᴰ.cons e q) = Permᴰ.cons (ap f e) (map-perm f q)
map-perm f (Permᴰ.swap e e') = Permᴰ.swap (ap f e) (ap f e')
map-perm f (Permᴰ.trans q r) = Permᴰ.trans (map-perm f q) (map-perm f r)

module _ {ℓ} {A : Type ℓ} where
  pub append_perm : (zs : List A) {xs ys : List A} → Permᴰ xs ys → Permᴰ (zs ++ xs) (zs ++ ys)
  append_perm [] p = p
  append_perm (z ∷ zs) p = Permᴰ.cons refl (append_perm zs p)

  -- An item moves to the front.
  pub perm_front : (x : A) (xs ys : List A) → Permᴰ (xs ++ (x ∷ ys)) (x ∷ (xs ++ ys))
  perm_front x [] ys = perm_refl (x ∷ ys)
  perm_front x (z ∷ xs) ys =
      Permᴰ.trans (Permᴰ.cons refl (perm_front x xs ys)) (Permᴰ.swap refl refl)

  -- What passes a test and what does not make up the list.
  pub parts_perm : (p : A → Bool) (xs : List A) → Permᴰ (keep p xs ++ keep (λ x. not (p x)) xs) xs
  parts_perm p [] = Permᴰ.nil
  parts_perm p (x ∷ xs) = elim (Bool-cases (p x)) [
    | inl t ↦ rw t (Permᴰ.cons refl (parts_perm p xs))
    | inr f ↦ rw f (
        Permᴰ.trans (perm_front x (keep p xs) (keep (λ x. not (p x)) xs))
          (Permᴰ.cons refl (parts_perm p xs)))
  ]

  pub perm_sym : {xs ys : List A} → Permᴰ xs ys → Permᴰ ys xs
  perm_sym Permᴰ.nil = Permᴰ.nil
  perm_sym (Permᴰ.cons e p) = Permᴰ.cons (sym e) (perm_sym p)
  perm_sym (Permᴰ.swap e e') = Permᴰ.swap (sym e') (sym e)
  perm_sym (Permᴰ.trans p q) = Permᴰ.trans (perm_sym q) (perm_sym p)

  pub perm-length : {xs ys : List A} → Permᴰ xs ys → length xs ≡ length ys
  perm-length Permᴰ.nil = refl
  perm-length (Permᴰ.cons e p) = ap suc (perm-length p)
  perm-length (Permᴰ.swap e e') = ap (λ n. suc (suc n)) refl
  perm-length (Permᴰ.trans p q) = perm-length p ∙ perm-length q
