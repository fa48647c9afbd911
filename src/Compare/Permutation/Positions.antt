-- ===== src/Compare/Permutation/Positions.antt =====
-- compare.py, the fixed positions of a `PermutationPolicy`: which indices and which values they are.
use foxreq.Prelude.{
  ℕ, zero, suc, ◌+◌, ◌<◌, ◌≡◌, refl, sym, ap, ap₂, subst, ◌∙◌, List, [], ◌∷◌, Bool, true, false,
  Option, none, some, not, ◌||◌, ◌==◌, arith, Bool-cases, inl, inr, &&-eq-true, ==_refl,
}
use foxreq.Prelude.Lists.{all, any, keep, All, get_elem?}
use foxreq.Compare.Permutation.{
  Objects, repeats, holds_at, is_at, fixed_from, values, member, unfixed,
}

pub All-map {ℓ} :
    {A : Type ℓ} (P Q : A → Type 0) → ((a : A) → P a → Q a) → (xs : List A) → All P xs → All Q xs
All-map P Q f [] h = tt
All-map P Q f (x ∷ xs) h = (f x h.0, All-map P Q f xs h.1)

shifted : (k j : ℕ) → k + suc j ≡ k + 1 + j
shifted k j = omega arith

unshifted : (k : ℕ) → k + zero ≡ k
unshifted k = omega arith

module _ (objects : Objects) where
  abbrev V : Type 0
  V = objects.Value

  -- What the fixed positions say of an order.
  abbrev pub Fits : List (ℕ × V) → List V → Type 0
  Fits fixed order = All (λ p. get_elem? order p.0 ≡ some p.1) fixed

  is_at_get :
      (order : List V) (i : ℕ) (v : V) → is_at objects i v order ≡ true → get_elem? order i ≡ some v
  is_at_get order i v h = by_case (get_elem? order i) h
    where
      by_case : (o : Option V) → holds_at objects v o ≡ true → o ≡ some v
      by_case none h = absurd (cc)
      by_case (some w) h = ap some (objects.eq_of_same w v h)

  get_member : (vs : List V) (j : ℕ) (v : V) → get_elem? vs j ≡ some v → member objects vs v ≡ true
  get_member [] j v h = absurd (cc)
  get_member (x ∷ xs) zero v h =
      let same : x ≡ v = cc in
      rw (subst (λ y. objects.same v y ≡ true) (sym same) (objects.same_refl v)) refl
  get_member (x ∷ xs) (suc j) v h = ground (arith, get_member xs j v h)

  -- Where nothing repeats, a value has one index.
  one_index :
      (vs : List V) (i j : ℕ) (v : V)
      → repeats objects vs ≡ false
      → get_elem? vs i ≡ some v
      → get_elem? vs j ≡ some v
      → i ≡ j
  one_index [] i j v d h k = absurd (cc)
  one_index (x ∷ xs) zero zero v d h k = refl
  one_index (x ∷ xs) zero (suc j) v d h k =
      let same : v ≡ x = cc in
      let there = subst (λ w. member objects xs w ≡ true) same (get_member xs j v k) in
      absurd (ground arith)
  one_index (x ∷ xs) (suc i) zero v d h k =
      let same : v ≡ x = cc in
      let there = subst (λ w. member objects xs w ≡ true) same (get_member xs i v h) in
      absurd (ground arith)
  one_index (x ∷ xs) (suc i) (suc j) v d h k = ap suc (one_index xs i j v (ground arith) h k)

  -- An index is fixed exactly where the value there is one of the fixed values.
  pub fixed_index :
      (order : List V) (fixed : List (ℕ × V)) (index : ℕ) (w : V)
      → repeats objects order ≡ false
      → Fits fixed order
      → get_elem? order index ≡ some w
      → any (λ (p : ℕ × V). p.0 == index) fixed ≡ member objects (values objects fixed) w
  fixed_index order [] index w d f h = refl
  fixed_index order ((i, v) ∷ fixed) index w d f h =
      ap₂ ◌||◌ (here (i == index) (objects.same w v) forth back)
        (fixed_index order fixed index w d f.1 h)
    where
      here : (a b : Bool) → (a ≡ true → b ≡ true) → (b ≡ true → a ≡ true) → a ≡ b
      here true b f g = sym (f refl)
      here false true f g = g refl
      here false false f g = refl

      forth : (i == index) ≡ true → objects.same w v ≡ true
      forth e =
          let same : i ≡ index = ground arith in
          let both : some v ≡ some w = sym f.0 ∙ ap (get_elem? order) same ∙ h in
          let values : v ≡ w = cc in
          subst (λ u. objects.same w u ≡ true) (sym values) (objects.same_refl w)

      back : objects.same w v ≡ true → (i == index) ≡ true
      back e =
          let values : w ≡ v = objects.eq_of_same w v e in
          let same : i ≡ index = one_index order i index v d f.0 (h ∙ ap some values) in
          subst (λ n. (i == n) ≡ true) same (==_refl i)

  -- What is not fixed is what is no fixed value.
  pub unfixed-keep :
      (fixed : List (ℕ × V)) (k : ℕ) (vs : List V)
      → ((j : ℕ) (w : V)
          → get_elem? vs j ≡ some w
          → any (λ (p : ℕ × V). p.0 == k + j) fixed ≡ member objects (values objects fixed) w)
      → unfixed objects fixed k vs ≡ keep (λ v. not (member objects (values objects fixed) v)) vs
  unfixed-keep fixed k [] h = refl
  unfixed-keep fixed k (v ∷ vs) h =
      let F = values objects fixed in
      let later = unfixed-keep fixed (k + 1) vs (λ j w e.
        subst (λ n. any (λ (p : ℕ × V). p.0 == n) fixed ≡ member objects F w) (shifted k j)
          (h (suc j) w e)) in
      let here =
        subst (λ n. any (λ (p : ℕ × V). p.0 == n) fixed ≡ member objects F v) (unshifted k)
          (h zero v refl) in
      elim (Bool-cases (member objects F v)) [
        | inl t ↦ rw (here, t) later
        | inr f ↦ rw (here, f) (ap (λ r. v ∷ r) later)
      ]

  module _ (others : List (List V)) where
    abbrev everywhere : ℕ → V → Bool
    everywhere index v = all (is_at objects index v) others

    low :
        (index k : ℕ) (vs : List V)
        → index < k
        → any (λ (p : ℕ × V). p.0 == index) (fixed_from objects others k vs) ≡ false
    unfolding fixed_from
    low index k [] h = refl
    low index k (v ∷ vs) h =
        let later = low index (k + 1) vs (omega arith) in
        let apart : (k == index) ≡ false = ground arith in
        elim (Bool-cases (everywhere k v)) [ inl t ↦ rw (t, apart) later | inr f ↦ rw f later ]

    -- An index is fixed where all the other samples have the first one's value.
    pub fixed_from_index :
        (k : ℕ) (vs : List V) (j : ℕ) (w : V)
        → get_elem? vs j ≡ some w
        → any (λ (p : ℕ × V). p.0 == k + j) (fixed_from objects others k vs) ≡ everywhere (k + j) w
    unfolding fixed_from
    fixed_from_index k [] j w e = absurd (cc)
    fixed_from_index k (v ∷ vs) zero w e =
        let same : v ≡ w = cc in
        let later = low k (k + 1) vs (omega arith) in
        subst
          (λ n.
            any (λ (p : ℕ × V). p.0 == n) (fixed_from objects others k (v ∷ vs)) ≡ everywhere n w)
          (sym (unshifted k))
          (subst
            (λ u.
              any (λ (p : ℕ × V). p.0 == k) (fixed_from objects others k (v ∷ vs)) ≡ everywhere k u)
            same
            (elim (Bool-cases (everywhere k v)) [
              | inl t ↦ rw (t, ==_refl k) refl
              | inr f ↦ rw (f, later) refl
            ]))
    fixed_from_index k (v ∷ vs) (suc j) w e =
        let later =
          subst
            (λ n.
              any (λ (p : ℕ × V). p.0 == n) (fixed_from objects others (k + 1) vs) ≡ everywhere n w)
            (sym (shifted k j)) (fixed_from_index (k + 1) vs j w e) in
        let apart : (k == (k + suc j)) ≡ false = ground arith in
        elim (Bool-cases (everywhere k v)) [ inl t ↦ rw (t, apart) later | inr f ↦ rw f later ]

    -- The fixed values are those of the first order that pass the test, in their order.
    pub values-keep :
        (q : V → Bool) (k : ℕ) (vs : List V)
        → ((j : ℕ) (w : V) → get_elem? vs j ≡ some w → everywhere (k + j) w ≡ q w)
        → values objects (fixed_from objects others k vs) ≡ keep q vs
    unfolding fixed_from
    values-keep q k [] h = refl
    values-keep q k (v ∷ vs) h =
        let later =
          values-keep q (k + 1) vs
            (λ j w e. subst (λ n. everywhere n w ≡ q w) (shifted k j) (h (suc j) w e)) in
        let here = subst (λ n. everywhere n v ≡ q v) (unshifted k) (h zero v refl) in
        elim (Bool-cases (q v)) [
          | inl t ↦ rw (here ∙ t, t) (ap (λ r. v ∷ r) later)
          | inr f ↦ rw (here ∙ f, f) later
        ]

    -- The first order fits, and all the others do.
    pub first-Fits :
        (order : List V) (k : ℕ) (vs : List V)
        → ((j : ℕ) → get_elem? order (k + j) ≡ get_elem? vs j)
        → Fits (fixed_from objects others k vs) order
    unfolding fixed_from
    first-Fits order k [] h = tt
    first-Fits order k (v ∷ vs) h =
        let later =
          first-Fits order (k + 1) vs
            (λ j. subst (λ n. get_elem? order n ≡ get_elem? vs j) (shifted k j) (h (suc j))) in
        let here = subst (λ n. get_elem? order n ≡ some v) (unshifted k) (h zero) in
        elim (Bool-cases (everywhere k v)) [ inl t ↦ rw t (here, later) | inr f ↦ rw f later ]

    pub fixed_everywhere :
        (k : ℕ) (vs : List V)
        → All (λ p. everywhere p.0 p.1 ≡ true) (fixed_from objects others k vs)
    unfolding fixed_from
    fixed_everywhere k [] = tt
    fixed_everywhere k (v ∷ vs) = elim (Bool-cases (everywhere k v)) [
      | inl t ↦ rw t (t, fixed_everywhere (k + 1) vs)
      | inr f ↦ rw f (fixed_everywhere (k + 1) vs)
    ]

  pub all_fit :
      (fixed : List (ℕ × V)) (orders : List (List V))
      → All (λ p. all (is_at objects p.0 p.1) orders ≡ true) fixed
      → All (Fits fixed) orders
  all_fit fixed [] h = tt
  all_fit fixed (order ∷ orders) h = (
    All-map (λ p. all (is_at objects p.0 p.1) (order ∷ orders) ≡ true)
        (λ p. get_elem? order p.0 ≡ some p.1)
        (λ p t. is_at_get order p.0 p.1 (&&-eq-true (is_at objects p.0 p.1 order) _ t).0) fixed h,
    all_fit fixed orders (
        All-map (λ p. all (is_at objects p.0 p.1) (order ∷ orders) ≡ true)
          (λ p. all (is_at objects p.0 p.1) orders ≡ true)
          (λ p t. (&&-eq-true (is_at objects p.0 p.1 order) _ t).1) fixed h),
  )
