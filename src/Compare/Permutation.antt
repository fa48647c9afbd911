-- ===== src/Compare/Permutation.antt =====
-- tools/fingerprint/compare.py: `PermutationPolicy`, which extensions keep their place and which move.
pub mod Sorting
pub mod Positions
pub mod Accepts
use foxreq.Prelude.{
  ℕ, zero, suc, ◌+◌, List, [], ◌∷◌, ◌++◌, Bool, true, false, Option, none, some, not, ◌&&◌, ◌||◌,
  ◌==◌, ltb, if◌then◌else◌, map, ◌≡◌,
}
use foxreq.Prelude.Lists.{length, all, any, keep, get_elem?}
use foxreq.Prelude.Sorting.{sort_by}
use foxreq.Prelude.Result.{Result, ok, err, ◌>>=◌, ◌>>◌}
use foxreq.Prelude.Text.{Text, text, text_eq, text_le, decimal}
use foxreq.Compare.{index_path}

-- The objects that stand for extension types: `==`, the name of the type, `str` and whether there is a
-- hash. Equality and the pair of type name and text both tell two of them apart, as they do for the
-- numbers and strings of evidence.
pub record Objects : Type 1 where
  pub Value : Type 0
  pub same : Value → Value → Bool
  pub type_name : Value → Text
  pub shown : Value → Text
  pub is_hashable : Value → Bool
  pub eq_of_same : (v w : Value) → same v w ≡ true → v ≡ w
  pub same_refl : (v : Value) → same v v ≡ true
  pub eq_of_key : (v w : Value) → type_name v ≡ type_name w → shown v ≡ shown w → v ≡ w

-- What is raised: a ProfileError, or a TypeError or an IndexError of Python.
pub data Fault : Type 0 where
  profile_error : Text → Fault
  type_error index_error : Fault

module _ (objects : Objects) where
  abbrev pub V : Type 0
  V = objects.Value

  -- What iterating `sample["extensions"]` gives, none where that raises a KeyError or a TypeError; an
  -- item is its "type", none where that raises one of them.
  abbrev pub Sample : Type 0
  Sample = Option (List (Option V))

  -- `(type(value).__name__, str(value))` of two values, compared
  abbrev pub key_le : V → V → Bool
  key_le v w =
      if text_eq (objects.type_name v) (objects.type_name w)
      then text_le (objects.shown v) (objects.shown w)
      else text_le (objects.type_name v) (objects.type_name w)

  -- `_sort_types`
  abbrev pub sort_types : List V → List V
  sort_types = sort_by key_le

  abbrev pub values_eq : List V → List V → Bool
  values_eq [] [] = true
  values_eq (v ∷ vs) (w ∷ ws) = objects.same v w && values_eq vs ws
  values_eq _ _ = false

  abbrev pub no_types : Fault
  no_types = profile_error (text "sample must contain an extensions list with types")

  unfoldable pub item_types : List (Option V) → Result Fault (List V)
  item_types [] = ok []
  item_types (none ∷ items) = err no_types
  item_types (some v ∷ items) = item_types items >>= λ vs. ok (v ∷ vs)

  -- `_extension_order`
  unfoldable pub extension_order : Sample → Result Fault (List V)
  unfolding item_types
  extension_order none = err no_types
  extension_order (some items) = item_types items

  unfoldable pub extension_orders : List Sample → Result Fault (List (List V))
  unfolding extension_order
  extension_orders [] = ok []
  extension_orders (s ∷ ss) = do
    order ← extension_order s
    orders ← extension_orders ss
    ok (order ∷ orders)

  -- `len(order) != len(set(order))`: a set keeps one of the items that are equal.
  abbrev pub repeats : List V → Bool
  repeats [] = false
  repeats (v ∷ vs) = any (objects.same v) vs || repeats vs

  -- The first `any` of `from_samples`; `set` wants a hash of every item.
  unfoldable pub check_repeats : List (List V) → Result Fault (Unit {0})
  check_repeats [] = ok tt
  check_repeats (order ∷ orders) =
      let rest = check_repeats orders in
      if not (all objects.is_hashable order)
      then err type_error
      else if repeats order
      then err (profile_error (text "duplicate extension type in sample"))
      else rest

  abbrev pub holds_at : V → Option V → Bool
  holds_at v none = false
  holds_at v (some w) = objects.same w v

  -- `order[index] == v`, for an index that is in range
  abbrev pub is_at : ℕ → V → List V → Bool
  is_at index v order = holds_at v (get_elem? order index)

  -- The dict of fixed positions, from an index on.
  unfoldable pub fixed_from : List (List V) → ℕ → List V → List (ℕ × V)
  fixed_from others index [] = []
  fixed_from others index (v ∷ vs) =
      let rest = fixed_from others (index + 1) vs in
      if all (is_at index v) others then (index, v) ∷ rest else rest

  abbrev pub values : List (ℕ × V) → List V
  values [] = []
  values ((i, v) ∷ fixed) = v ∷ values fixed

  abbrev pub member : List V → V → Bool
  member vs v = any (objects.same v) vs

  pub record PermutationPolicy : Type 0 where
    pub fixed_positions : List (ℕ × V)
    pub movable_types : List V
    pub extension_count : ℕ

  unfoldable pub policy_of : List V → List (List V) → PermutationPolicy
  unfolding fixed_from
  policy_of first others =
      let fixed = fixed_from others 0 first in
      record {
        fixed_positions = fixed;
        movable_types = keep (λ v. not (member (values fixed) v)) (sort_types first);
        extension_count = length first;
      }

  -- `from_samples`, from the orders on
  unfoldable pub from_orders : List (List V) → Result Fault PermutationPolicy
  unfolding check_repeats policy_of
  from_orders [] = err index_error
  from_orders (first ∷ others) = do
    check_repeats (first ∷ others)
    if all (λ order. values_eq (sort_types order) (sort_types first)) others
        then ok (policy_of first others)
        else err (profile_error (text "extension multisets differ"))

  unfoldable pub from_samples : List Sample → Result Fault PermutationPolicy
  unfolding extension_orders from_orders
  from_samples samples =
      if ltb (length samples) 2
      then err (profile_error (text "permutation policy requires at least two samples"))
      else extension_orders samples >>= from_orders

  -- What a difference shows.
  pub data Shown : Type 0 where
    count : ℕ → Shown
    types : List V → Shown
    one : V → Shown

  pub record Mismatch : Type 0 where
    pub path : Text
    pub expected : Shown
    pub actual : Shown

  abbrev pub mismatch_unless : Bool → Text → Shown → Shown → List Mismatch
  mismatch_unless test path expected actual =
      if test then [] else record { path = path; expected = expected; actual = actual } ∷ []

  -- The values at the indices that are not fixed.
  abbrev pub unfixed : List (ℕ × V) → ℕ → List V → List V
  unfixed fixed index [] = []
  unfixed fixed index (v ∷ vs) =
      let rest = unfixed fixed (index + 1) vs in
      if any (λ (p : ℕ × V). p.0 == index) fixed then rest else v ∷ rest

  -- One round of the last loop of `compare`; an index out of range raises.
  unfoldable pub fixed_mismatch : ℕ → V → Option V → Result Fault (List Mismatch)
  fixed_mismatch index v none = err index_error
  fixed_mismatch index v (some w) = ok (
      mismatch_unless (objects.same w v) (index_path (text "$.extensions") index ++ text ".type")
        (one v) (one w))

  unfoldable pub fixed_mismatches : List V → List (ℕ × V) → Result Fault (List Mismatch)
  unfolding fixed_mismatch
  fixed_mismatches order [] = ok []
  fixed_mismatches order ((index, v) ∷ fixed) = do
    found ← fixed_mismatch index v (get_elem? order index)
    differences ← fixed_mismatches order fixed
    ok (found ++ differences)

  unfoldable pub compare_order : PermutationPolicy → List V → Result Fault (List Mismatch)
  unfolding fixed_mismatches
  compare_order policy order =
      let expected_types = sort_types (values policy.fixed_positions ++ policy.movable_types) in
      let actual_movable = sort_types (unfixed policy.fixed_positions 0 order) in
      if not (length order == policy.extension_count)
      then ok (
          mismatch_unless false (text "$.extensions.length") (count policy.extension_count)
            (count (length order)))
      else fixed_mismatches order policy.fixed_positions >>= λ differences. ok (
          mismatch_unless (values_eq (sort_types order) expected_types) (text "$.extensions.types")
            (types expected_types) (types (sort_types order))
          ++ (mismatch_unless (values_eq actual_movable policy.movable_types)
                (text "$.extensions.movable") (types policy.movable_types) (types actual_movable)
              ++ differences))

  -- `compare`
  unfoldable pub compare_sample : PermutationPolicy → Sample → Result Fault (List Mismatch)
  unfolding compare_order
  compare_sample policy candidate = extension_order candidate >>= compare_order policy
