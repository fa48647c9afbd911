-- ===== src/Compare/Permutation/Sorting.antt =====
-- compare.py, `_sort_types`: type names and texts are a total order.
use foxreq.Prelude.{
  ◌≡◌, refl, sym, subst, [], ◌∷◌, Bool, true, false, arith, Bool-cases, inl, inr, if◌then◌else◌,
}
use foxreq.Prelude.Text.{Text, text_eq, text_le, eq_of_text_eq, text_eq_refl}
use foxreq.Compare.Permutation.{Objects, key_le}

text_le_total : (a b : Text) → text_le a b ≡ false → text_le b a ≡ true
text_le_total [] b h = absurd (cc)
text_le_total (x ∷ xs) [] h = refl
text_le_total (x ∷ xs) (y ∷ ys) h = ground (arith, text_le_total xs ys)

text_le_antisym : (a b : Text) → text_le a b ≡ true → text_le b a ≡ true → a ≡ b
text_le_antisym [] [] h k = refl
text_le_antisym [] (y ∷ ys) h k = absurd (cc)
text_le_antisym (x ∷ xs) [] h k = absurd (cc)
text_le_antisym (x ∷ xs) (y ∷ ys) h k = ground (arith, text_le_antisym xs ys)

text_le_trans : (a b c : Text) → text_le a b ≡ true → text_le b c ≡ true → text_le a c ≡ true
text_le_trans [] b c h k = refl
text_le_trans (x ∷ xs) [] c h k = absurd (cc)
text_le_trans (x ∷ xs) (y ∷ ys) [] h k = absurd (cc)
text_le_trans (x ∷ xs) (y ∷ ys) (z ∷ zs) h k = ground (arith, text_le_trans xs ys zs)

text_eq_comm : (a b : Text) → text_eq a b ≡ text_eq b a
text_eq_comm [] [] = refl
text_eq_comm [] (y ∷ ys) = refl
text_eq_comm (x ∷ xs) [] = refl
text_eq_comm (x ∷ xs) (y ∷ ys) = ground (arith, text_eq_comm xs ys)

-- Two texts compared by the first, then by the second.
abbrev pair_le : Text → Text → Text → Text → Bool
pair_le a s b t = if text_eq a b then text_le s t else text_le a b

pair_le_total : (a s b t : Text) → pair_le a s b t ≡ false → pair_le b t a s ≡ true
pair_le_total a s b t h = ground (arith, text_eq_comm a b, text_le_total s t, text_le_total a b)

pair_le_antisym :
    (a s b t : Text) → pair_le a s b t ≡ true → pair_le b t a s ≡ true → (a ≡ b) × (s ≡ t)
pair_le_antisym a s b t h k = elim (Bool-cases (text_eq a b)) [
  | inl e ↦
      (eq_of_text_eq a b e, text_le_antisym s t (ground arith) (ground (arith, text_eq_comm a b)))
  | inr d ↦
      let same = text_le_antisym a b (ground arith) (ground (arith, text_eq_comm a b)) in
      absurd (cc (subst (λ c. text_eq a c ≡ true) same (text_eq_refl a), d))
]

pair_le_trans :
    (a s b t c u : Text) → pair_le a s b t ≡ true → pair_le b t c u ≡ true → pair_le a s c u ≡ true
pair_le_trans a s b t c u h k = elim (Bool-cases (text_eq a b)) [
  | inl e ↦
      let k' = subst (λ z. pair_le z t c u ≡ true) (sym (eq_of_text_eq a b e)) k in
      ground (arith, text_le_trans s t u)
  | inr d ↦ elim (Bool-cases (text_eq b c)) [
    | inl e ↦
        let apart = subst (λ z. text_eq a z ≡ false) (eq_of_text_eq b c e) d in
        let below = subst (λ z. text_le a z ≡ true) (eq_of_text_eq b c e) (under a s b t d h) in
        ground arith
    | inr d' ↦ ends a s b c u d (under a s b t d h) (under b t c u d' k)
  ]
]
  where
    under : (a s b t : Text) → text_eq a b ≡ false → pair_le a s b t ≡ true → text_le a b ≡ true
    under a s b t d h = ground arith

    apart_lem : (a b : Text) → text_eq a b ≡ false → a ≡ b → ⊥
    apart_lem a b d e = let same = subst (λ z. text_eq a z ≡ true) e (text_eq_refl a) in cc

    ends :
        (a s b c u : Text)
        → text_eq a b ≡ false
        → text_le a b ≡ true
        → text_le b c ≡ true
        → pair_le a s c u ≡ true
    ends a s b c u d h k = elim (Bool-cases (text_eq a c)) [
      | inl e ↦
          let back = subst (λ z. text_le b z ≡ true) (sym (eq_of_text_eq a c e)) k in
          absurd (apart_lem a b d (text_le_antisym a b h back))
      | inr d' ↦ let far = text_le_trans a b c h k in ground arith
    ]

module _ (objects : Objects) where
  abbrev V : Type 0
  V = objects.Value

  abbrev le : V → V → Bool
  le = key_le objects

  pub le_total : (v w : V) → le v w ≡ false → le w v ≡ true
  le_total v w =
      pair_le_total (objects.type_name v) (objects.shown v) (objects.type_name w) (objects.shown w)

  pub le_trans : (u v w : V) → le u v ≡ true → le v w ≡ true → le u w ≡ true
  le_trans u v w =
      pair_le_trans (objects.type_name u) (objects.shown u) (objects.type_name v) (objects.shown v)
        (objects.type_name w) (objects.shown w)

  pub le_antisym : (v w : V) → le v w ≡ true → le w v ≡ true → v ≡ w
  le_antisym v w h k =
      let (names, texts) =
        pair_le_antisym (objects.type_name v) (objects.shown v) (objects.type_name w)
          (objects.shown w) h k in
      objects.eq_of_key v w names texts
