-- ===== src/Compare/Permutation/Accepts.antt =====
-- compare.py: a `PermutationPolicy` accepts the samples that it was made of.
use mathlib.Core.List.{Permᴰ}
use foxreq.Prelude.{
  ℕ, ◌+◌, ◌≡◌, refl, sym, ap, ap₂, subst, ◌∙◌, List, [], ◌∷◌, ◌++◌, Bool, true, false, some, not,
  ◌==◌, arith, Bool-cases, inl, inr, &&-eq-true, ==_refl, ltb,
}
use foxreq.Prelude.Lists.{length, all, keep, All, get_elem?}
use foxreq.Prelude.Perms.{perm-length, append_perm, keep-perm, parts_perm}
use foxreq.Prelude.Sorting.{sort_by_perm, sort_by-perm, sort_by-keep}
use foxreq.Prelude.Result.{ok, bind-eq-ok}
use foxreq.Compare.Permutation.{
  Objects, Sample, key_le, sort_types, values_eq, extension_order, extension_orders, repeats,
  check_repeats, fixed_from, values, member, PermutationPolicy, policy_of, from_orders,
  from_samples, unfixed, fixed_mismatch, fixed_mismatches, compare_order, compare_sample,
}
use foxreq.Compare.Permutation.Sorting.{le_total, le_trans, le_antisym}
use foxreq.Compare.Permutation.Positions.{
  All-map, Fits, fixed_index, unfixed-keep, fixed_from_index, values-keep, first-Fits,
  fixed_everywhere, all_fit,
}

module _ (objects : Objects) where
  abbrev V : Type 0
  V = objects.Value

  values_eq_refl : (vs : List V) → values_eq objects vs vs ≡ true
  values_eq_refl [] = refl
  values_eq_refl (v ∷ vs) = ground (arith, objects.same_refl v, values_eq_refl vs)

  eq_of_values_eq : (vs ws : List V) → values_eq objects vs ws ≡ true → vs ≡ ws
  eq_of_values_eq [] [] h = refl
  eq_of_values_eq [] (w ∷ ws) h = absurd (cc)
  eq_of_values_eq (v ∷ vs) [] h = absurd (cc)
  eq_of_values_eq (v ∷ vs) (w ∷ ws) h =
      let (here, there) = &&-eq-true (objects.same v w) (values_eq objects vs ws) h in
      ap₂ ◌∷◌ (objects.eq_of_same v w here) (eq_of_values_eq vs ws there)

  abbrev sorted : List V → List V
  sorted = sort_types objects

  sorted_eq : {vs ws : List V} → Permᴰ vs ws → sorted vs ≡ sorted ws
  sorted_eq =
      sort_by-perm (key_le objects) (le_total objects) (le_trans objects) (le_antisym objects)

  sorted_length : (vs ws : List V) → sorted vs ≡ sorted ws → length vs ≡ length ws
  sorted_length vs ws e =
      sym (perm-length (sort_by_perm (key_le objects) vs))
      ∙ (ap length e ∙ perm-length (sort_by_perm (key_le objects) ws))

  -- An order like that of a sample, for a policy with the given fixed positions.
  record IsLike (fixed : List (ℕ × V)) (first order : List V) : Type 0 where
    apart : repeats objects order ≡ false
    sorted_like : sorted order ≡ sorted first
    fits : Fits objects fixed order

  Fits-mismatches :
      (order : List V) (fixed : List (ℕ × V))
      → Fits objects fixed order
      → fixed_mismatches objects order fixed ≡ ok []
  unfolding fixed_mismatches fixed_mismatch
  Fits-mismatches order [] h = refl
  Fits-mismatches order ((i, v) ∷ fixed) h =
      rw (h.0) (rw (objects.same_refl v) (rw (Fits-mismatches order fixed h.1) refl))

  no_mismatch :
      (policy : PermutationPolicy objects) (order : List V)
      → (length order == policy.extension_count) ≡ true
      → sorted order ≡ sorted (values objects policy.fixed_positions ++ policy.movable_types)
      → sorted (unfixed objects policy.fixed_positions 0 order) ≡ policy.movable_types
      → fixed_mismatches objects order policy.fixed_positions ≡ ok []
      → compare_order objects policy order ≡ ok []
  unfolding compare_order
  no_mismatch policy order lengths all_same movable fixed =
      rw (lengths, fixed, all_same, movable)
        (rw
          (
            values_eq_refl (sorted (values objects policy.fixed_positions ++ policy.movable_types)),
            values_eq_refl policy.movable_types,
          )
          refl)

  module _ (first : List V) (others : List (List V))
      (apart_first : repeats objects first ≡ false) where
    abbrev fixed : List (ℕ × V)
    fixed = fixed_from objects others 0 first

    abbrev F : V → Bool
    F = member objects (values objects fixed)

    abbrev movable : List V
    movable = keep (λ v. not (F v)) (sorted first)

    Fits-first : Fits objects fixed first
    Fits-first = first-Fits objects others first 0 first (λ j. ap (get_elem? first) (omega arith))

    fixed_values : values objects fixed ≡ keep F first
    fixed_values = values-keep objects others F 0 first λ j w e.
        sym (fixed_from_index objects others 0 first j w e)
        ∙ fixed_index objects first fixed (0 + j) w apart_first Fits-first
            (subst (λ n. get_elem? first n ≡ some w) (omega arith) e)

    -- Fixed and movable types together are those of the first sample.
    all_types : sorted (values objects fixed ++ movable) ≡ sorted first
    all_types = sorted_eq (
        Permᴰ.trans
          (append_perm (values objects fixed)
            (keep-perm (λ v. not (F v)) (sort_by_perm (key_le objects) first)))
          (subst (λ vs. Permᴰ (vs ++ keep (λ v. not (F v)) first) first) (sym fixed_values)
            (parts_perm F first)))

    movable_types_of :
        (order : List V)
        → IsLike fixed first order
        → sorted (unfixed objects fixed 0 order) ≡ movable
    movable_types_of order like =
        ap sorted (
          unfixed-keep objects fixed 0 order λ j w e.
            fixed_index objects order fixed (0 + j) w like.apart like.fits
              (subst (λ n. get_elem? order n ≡ some w) (omega arith) e))
        ∙ (sort_by-keep (key_le objects) (le_total objects) (le_trans objects) (le_antisym objects)
              (λ v. not (F v)) order
            ∙ ap (keep (λ v. not (F v))) like.sorted_like)

    accepts_like :
        (order : List V)
        → IsLike fixed first order
        → compare_order objects (policy_of objects first others) order ≡ ok []
    unfolding policy_of
    accepts_like order like =
        no_mismatch (policy_of objects first others) order
          (subst (λ n. (length order == n) ≡ true) (sorted_length order first like.sorted_like)
            (==_refl (length order)))
          (like.sorted_like ∙ sym all_types) (movable_types_of order like)
          (Fits-mismatches order fixed like.fits)

  check_repeats_ok :
      (orders : List (List V)) (u : Unit {0})
      → check_repeats objects orders ≡ ok u
      → All (λ order. repeats objects order ≡ false) orders
  unfolding check_repeats
  check_repeats_ok [] u e = tt
  check_repeats_ok (order ∷ orders) u e = elim (Bool-cases (all objects.is_hashable order)) [
    | inl hashable ↦ elim (Bool-cases (repeats objects order)) [
      | inl twice ↦ absurd (ground arith)
      | inr once ↦ (once, check_repeats_ok orders u (ground arith))
    ]
    | inr unhashable ↦ absurd (ground arith)
  ]

  all_like :
      (first : List V) (orders : List (List V))
      → all (λ order. values_eq objects (sorted order) (sorted first)) orders ≡ true
      → All (λ order. sorted order ≡ sorted first) orders
  all_like first [] h = tt
  all_like first (order ∷ orders) h =
      let (here, there) = &&-eq-true (values_eq objects (sorted order) (sorted first)) _ h in
      (eq_of_values_eq (sorted order) (sorted first) here, all_like first orders there)

  likes :
      (fixed : List (ℕ × V)) (first : List V) (orders : List (List V))
      → All (λ order. repeats objects order ≡ false) orders
      → All (λ order. sorted order ≡ sorted first) orders
      → All (Fits objects fixed) orders
      → All (IsLike fixed first) orders
  likes positions first [] a s f = tt
  likes positions first (order ∷ orders) a s f = (
    record { apart = a.0; sorted_like = s.0; fits = f.0 },
    likes positions first orders a.1 s.1 f.1,
  )

  from_orders_ok :
      (orders : List (List V)) (policy : PermutationPolicy objects)
      → from_orders objects orders ≡ ok policy
      → All (λ order. compare_order objects policy order ≡ ok []) orders
  unfolding from_orders
  from_orders_ok [] policy e = absurd (cc)
  from_orders_ok (first ∷ others) policy e =
      let (u, p, e) = bind-eq-ok (check_repeats objects (first ∷ others)) _ policy e in
      let apart = check_repeats_ok (first ∷ others) u p in
      elim (Bool-cases (all (λ order. values_eq objects (sorted order) (sorted first)) others)) [
        | inl like ↦
            let same : policy_of objects first others ≡ policy = ground arith in
            let fixed = fixed_from objects others 0 first in
            let fit = all_fit objects fixed others (fixed_everywhere objects others 0 first) in
            subst (λ q. All (λ order. compare_order objects q order ≡ ok []) (first ∷ others)) same
              (All-map (IsLike fixed first)
                (λ order. compare_order objects (policy_of objects first others) order ≡ ok [])
                (accepts_like first others apart.0) (first ∷ others)
                (
                  record {
                    apart = apart.0;
                    sorted_like = refl;
                    fits = Fits-first first others apart.0;
                  },
                  likes fixed first others apart.1 (all_like first others like) fit,
                ))
        | inr unlike ↦ absurd (ground arith)
      ]

  orders_samples :
      (policy : PermutationPolicy objects) (samples : List (Sample objects))
      (orders : List (List V))
      → extension_orders objects samples ≡ ok orders
      → All (λ order. compare_order objects policy order ≡ ok []) orders
      → All (λ s. compare_sample objects policy s ≡ ok []) samples
  unfolding extension_orders compare_sample
  orders_samples policy [] orders e h = tt
  orders_samples policy (s ∷ ss) orders e h =
      let (order, p, e) = bind-eq-ok (extension_order objects s) _ orders e in
      let (rest, q, e) = bind-eq-ok (extension_orders objects ss) _ orders e in
      let same : orders ≡ (order ∷ rest) = cc in
      let h' = subst (All (λ order. compare_order objects policy order ≡ ok [])) same h in
      (rw p (h'.0), orders_samples policy ss rest q h'.1)

  -- A policy that is made of samples finds no difference in any of them.
  pub compare_sample-from_samples :
      (samples : List (Sample objects)) (policy : PermutationPolicy objects)
      → from_samples objects samples ≡ ok policy
      → All (λ s. compare_sample objects policy s ≡ ok []) samples
  unfolding from_samples
  compare_sample-from_samples samples policy e = elim (Bool-cases (ltb (length samples) 2)) [
    | inl few ↦ absurd (ground arith)
    | inr enough ↦
        let (orders, p, q) =
          bind-eq-ok (extension_orders objects samples) (from_orders objects) policy
            (ground arith) in
        orders_samples policy samples orders p (from_orders_ok orders policy q)
  ]
