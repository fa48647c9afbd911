-- ===== src/Prelude/Sorting.antt =====
-- A stable sort by a test of order, and its laws where the test is a total order.
use mathlib.Core.Path.{◌≡◌, refl, ap₂, ◌∙◌}
use mathlib.Core.Logic.{inl, inr}
use mathlib.Core.Bool.{Bool, true, false}
use mathlib.Core.List.{List, [], ◌∷◌, Permᴰ}
use native.Mathlib.Omega.{arith}
use foxreq.Prelude.Tests.{Bool-cases, if◌then◌else◌}
use foxreq.Prelude.Lists.{keep, All}
use foxreq.Prelude.Perms.{perm_refl, perm_sym, keep-perm}

module _ {A : Type 0} (le : A → A → Bool) where
  abbrev pub insert_by : A → List A → List A
  insert_by v [] = v ∷ []
  insert_by v (w ∷ ws) = if le v w then v ∷ w ∷ ws else w ∷ insert_by v ws

  abbrev pub sort_by : List A → List A
  sort_by [] = []
  sort_by (v ∷ vs) = insert_by v (sort_by vs)

  insert_perm : (v : A) (vs : List A) → Permᴰ (insert_by v vs) (v ∷ vs)
  insert_perm v [] = perm_refl (v ∷ [])
  insert_perm v (w ∷ ws) = elim (Bool-cases (le v w)) [
    | inl t ↦ rw t (perm_refl (v ∷ w ∷ ws))
    | inr f ↦ rw f (Permᴰ.trans (Permᴰ.cons refl (insert_perm v ws)) (Permᴰ.swap refl refl))
  ]

  pub sort_by_perm : (vs : List A) → Permᴰ (sort_by vs) vs
  sort_by_perm [] = Permᴰ.nil
  sort_by_perm (v ∷ vs) =
      Permᴰ.trans (insert_perm v (sort_by vs)) (Permᴰ.cons refl (sort_by_perm vs))

  abbrev Above : A → List A → Type 0
  Above v = All (λ w. le v w ≡ true)

  -- Every item is below all that come after it.
  abbrev pub IsOrdered : List A → Type 0
  IsOrdered [] = Unit {0}
  IsOrdered (v ∷ vs) = Above v vs × IsOrdered vs

  -- A list in order is kept by the sort.
  pub sort_by_id : (vs : List A) → IsOrdered vs → sort_by vs ≡ vs
  sort_by_id [] h = refl
  sort_by_id (v ∷ vs) (above, h) = rw (sort_by_id vs h) (first v vs above)
    where
      first : (v : A) (vs : List A) → Above v vs → insert_by v vs ≡ v ∷ vs
      first v [] k = refl
      first v (w ∷ ws) k = rw k.0 refl

  keep-Above : (p : A → Bool) (v : A) (vs : List A) → Above v vs → Above v (keep p vs)
  keep-Above p v [] h = tt
  keep-Above p v (w ∷ ws) h = elim (Bool-cases (p w)) [
    | inl t ↦ rw t (h.0, keep-Above p v ws h.1)
    | inr f ↦ rw f (keep-Above p v ws h.1)
  ]

  pub keep-IsOrdered : (p : A → Bool) (vs : List A) → IsOrdered vs → IsOrdered (keep p vs)
  keep-IsOrdered p [] h = tt
  keep-IsOrdered p (v ∷ vs) (above, h) = elim (Bool-cases (p v)) [
    | inl t ↦ rw t (keep-Above p v vs above, keep-IsOrdered p vs h)
    | inr f ↦ rw f (keep-IsOrdered p vs h)
  ]

  module _ (total : (v w : A) → le v w ≡ false → le w v ≡ true)
      (trans : (u v w : A) → le u v ≡ true → le v w ≡ true → le u w ≡ true)
      (antisym : (v w : A) → le v w ≡ true → le w v ≡ true → v ≡ w) where
    Above-trans : (u v : A) (vs : List A) → le u v ≡ true → Above v vs → Above u vs
    Above-trans u v [] h k = tt
    Above-trans u v (w ∷ ws) h k = (trans u v w h k.0, Above-trans u v ws h k.1)

    insert-Above : (u v : A) (vs : List A) → le u v ≡ true → Above u vs → Above u (insert_by v vs)
    insert-Above u v [] h k = (h, tt)
    insert-Above u v (w ∷ ws) h k = elim (Bool-cases (le v w)) [
      | inl t ↦ rw t (h, k)
      | inr f ↦ rw f (k.0, insert-Above u v ws h k.1)
    ]

    insert-IsOrdered : (v : A) (vs : List A) → IsOrdered vs → IsOrdered (insert_by v vs)
    insert-IsOrdered v [] h = (tt, tt)
    insert-IsOrdered v (w ∷ ws) (above, h) = elim (Bool-cases (le v w)) [
      | inl t ↦ rw t ((t, Above-trans v w ws t above), (above, h))
      | inr f ↦ rw f (insert-Above w v ws (total v w f) above, insert-IsOrdered v ws h)
    ]

    pub sort_by-IsOrdered : (vs : List A) → IsOrdered (sort_by vs)
    sort_by-IsOrdered [] = tt
    sort_by-IsOrdered (v ∷ vs) = insert-IsOrdered v (sort_by vs) (sort_by-IsOrdered vs)

    insert_comm :
        (a b : A) (vs : List A) → insert_by a (insert_by b vs) ≡ insert_by b (insert_by a vs)
    insert_comm a b [] = ground (arith, total a b, antisym a b)
    insert_comm a b (v ∷ vs) = ground (
      arith,
      insert_comm a b vs,
      total a b,
      antisym a b,
      trans a b v,
      trans b a v,
      total a v,
      total b v,
    )

    pub sort_by-perm : {vs ws : List A} → Permᴰ vs ws → sort_by vs ≡ sort_by ws
    sort_by-perm Permᴰ.nil = refl
    sort_by-perm (Permᴰ.cons e p) = ap₂ insert_by e (sort_by-perm p)
    sort_by-perm (Permᴰ.swap {a} {b} {l = l} e e') =
        insert_comm a b (sort_by l) ∙ ap₂ (λ x y. insert_by x (insert_by y (sort_by l))) e' e
    sort_by-perm (Permᴰ.trans p q) = sort_by-perm p ∙ sort_by-perm q

    -- To sort what passes a test is to keep it of the sorted list.
    pub sort_by-keep : (p : A → Bool) (vs : List A) → sort_by (keep p vs) ≡ keep p (sort_by vs)
    sort_by-keep p vs =
        sort_by-perm (keep-perm p (perm_sym (sort_by_perm vs)))
        ∙ sort_by_id (keep p (sort_by vs)) (keep-IsOrdered p (sort_by vs) (sort_by-IsOrdered vs))
