-- ===== src/Compare/Sound.antt =====
-- compare.py: no difference is found exactly between pieces of evidence that are the same.
use foxreq.Prelude.{
  ℕ, zero, ◌+◌, ◌≡◌, ◌↔◌, refl, sym, [], Bool, true, false, Option, none, some, arith, Bool-cases,
  inl, inr, ℤ, pos, negsuc,
}
use foxreq.Prelude.Text.{Text, text_eq, eq_of_text_eq, text_eq_refl}
use foxreq.Json.{
  Json, Items, Fields, null, bool, int, real, str, list, dict, nil, cons, end, field, lookup,
  contains_text,
}
use foxreq.Compare.{
  all_keys, int_eq, bool_eq, key_path, index_path, compare_evidence, compare_key, compare_items,
}
use foxreq.Compare.Same.{
  Same, SameKey, SameItems, not_compared, lookup_missing, SameKey-missing, append-eq-nil,
  for_keys_each, for_keys_none,
}

eq_of_int_eq : (a b : ℤ) → int_eq a b ≡ true → a ≡ b
eq_of_int_eq (pos m) (pos n) h = ground arith
eq_of_int_eq (pos m) (negsuc n) h = ground arith
eq_of_int_eq (negsuc m) (pos n) h = ground arith
eq_of_int_eq (negsuc m) (negsuc n) h = ground arith

int_eq_refl : (a : ℤ) → int_eq a a ≡ true
int_eq_refl (pos n) = ground arith
int_eq_refl (negsuc n) = ground arith

eq_of_bool_eq : (a b : Bool) → bool_eq a b ≡ true → a ≡ b
eq_of_bool_eq true b h = sym h
eq_of_bool_eq false b h = ground arith

bool_eq_refl : (a : Bool) → bool_eq a a ≡ true
bool_eq_refl true = refl
bool_eq_refl false = refl

mutual
  unfolding compare_evidence

  sound : (e a : Json) (path : Text) → compare_evidence e a path ≡ [] → Same e a
  sound null a path h = ground arith
  sound (bool x) (bool y) path h = eq_of_bool_eq x y (ground arith)
  sound (bool x) a path h = ground arith
  sound (int x) (int y) path h = eq_of_int_eq x y (ground arith)
  sound (int x) a path h = ground arith
  sound (real x) (real y) path h = ground arith
  sound (real x) a path h = ground arith
  sound (str x) (str y) path h = eq_of_text_eq x y (ground arith)
  sound (str x) a path h = ground arith
  sound (list xs) (list ys) path h = sound_items xs ys path zero h
  sound (list xs) a path h = ground arith
  sound (dict f) (dict g) path h = λ key. elim (Bool-cases (contains_text key (all_keys f g))) [
    | inl compared ↦ sound_key f key (lookup key g) (key_path path key) (
        for_keys_each (λ k. compare_key f k (lookup k g) (key_path path k)) (all_keys f g) key h
          compared)
    | inr outside ↦
        let (in_f, in_g) = not_compared f g key outside in
        rw (lookup_missing g key in_g) (SameKey-missing f key in_f)
  ]
  sound (dict f) a path h = ground arith

  sound_key :
      (f : Fields) (key : Text) (o : Option Json) (path : Text)
      → compare_key f key o path ≡ []
      → SameKey f key o
  sound_key end key none path h = tt
  sound_key end key (some w) path h = cc
  sound_key (field k v rest) key none path h = elim (Bool-cases (text_eq k key)) [
    | inl same ↦ rw same (ground arith)
    | inr other ↦ rw other (sound_key rest key none path (ground arith))
  ]
  sound_key (field k v rest) key (some w) path h = elim (Bool-cases (text_eq k key)) [
    | inl same ↦ rw same (sound v w path (ground arith))
    | inr other ↦ rw other (sound_key rest key (some w) path (ground arith))
  ]

  sound_items :
      (xs ys : Items) (path : Text) (index : ℕ)
      → compare_items xs ys path index ≡ []
      → SameItems xs ys
  sound_items nil nil path index h = tt
  sound_items nil (cons y ys) path index h = cc
  sound_items (cons x xs) nil path index h = cc
  sound_items (cons x xs) (cons y ys) path index h =
      let (here, there) =
        append-eq-nil (compare_evidence x y (index_path path index))
          (compare_items xs ys path (index + 1)) h in
      (sound x y (index_path path index) here, sound_items xs ys path (index + 1) there)

mutual
  unfolding compare_evidence

  complete : (e a : Json) (path : Text) → Same e a → compare_evidence e a path ≡ []
  complete null a path h = ground arith
  complete (bool x) (bool y) path h = ground (arith, bool_eq_refl x)
  complete (bool x) a path h = ground arith
  complete (int x) (int y) path h = ground (arith, int_eq_refl x)
  complete (int x) a path h = ground arith
  complete (real x) (real y) path h = ground arith
  complete (real x) a path h = ground arith
  complete (str x) (str y) path h = ground (arith, text_eq_refl x)
  complete (str x) a path h = ground arith
  complete (list xs) (list ys) path h = complete_items xs ys path zero h
  complete (list xs) a path h = ground arith
  complete (dict f) (dict g) path h =
      for_keys_none (λ k. compare_key f k (lookup k g) (key_path path k)) (all_keys f g)
        (λ key. complete_key f key (lookup key g) (key_path path key) (h key))
  complete (dict f) a path h = ground arith

  complete_key :
      (f : Fields) (key : Text) (o : Option Json) (path : Text)
      → SameKey f key o
      → compare_key f key o path ≡ []
  complete_key end key none path h = refl
  complete_key end key (some w) path h = absurd h
  complete_key (field k v rest) key none path h = ground (arith, complete_key rest key none path)
  complete_key (field k v rest) key (some w) path h =
      ground (arith, complete v w path, complete_key rest key (some w) path)

  complete_items :
      (xs ys : Items) (path : Text) (index : ℕ)
      → SameItems xs ys
      → compare_items xs ys path index ≡ []
  complete_items nil nil path index h = refl
  complete_items nil (cons y ys) path index h = absurd h
  complete_items (cons x xs) nil path index h = absurd h
  complete_items (cons x xs) (cons y ys) path index (here, there) =
      rw (complete x y (index_path path index) here) (complete_items xs ys path (index + 1) there)

-- No difference is reported, at any path, exactly where the two are the same: of one type, equal
-- texts, flags and integers, floats that compare equal, lists of one length whose items are the same
-- in order, and dicts with the same keys, in any order, whose values are the same.
pub compare_evidence_iff : (e a : Json) (path : Text) → (compare_evidence e a path ≡ []) ↔ Same e a
compare_evidence_iff e a path = (sound e a path, complete e a path)
