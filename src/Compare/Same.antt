-- ===== src/Compare/Same.antt =====
-- compare.py: what it means that two pieces of evidence are the same, and facts about the keys.
use foxreq.Prelude.{
  ◌≡◌, refl, sym, ap, subst, ◌∙◌, List, [], ◌∷◌, ◌++◌, Bool, true, false, Option, none, some, not,
  ◌||◌, if◌then◌else◌, arith, Bool-cases, inl, inr,
}
use foxreq.Prelude.Lists.{keep}
use foxreq.Prelude.Float.{real_equal}
use foxreq.Prelude.Text.{Text, text_eq, eq_of_text_eq, insert_text, sorted_texts}
use foxreq.Json.{
  Json, Items, Fields, null, bool, int, real, str, list, dict, nil, cons, end, field, lookup, keys,
  contains_text,
}
use foxreq.Compare.{Difference, all_keys, for_keys}

-- Of one type, with equal numbers, texts and flags, lists item by item, and dicts key by key in any
-- order: every key is in both or in neither.
abbrev mutual
  pub Same : Json → Json → Type 0
  Same null null = Unit {0}
  Same (bool a) (bool b) = a ≡ b
  Same (int a) (int b) = a ≡ b
  Same (real a) (real b) = real_equal a b ≡ true
  Same (str a) (str b) = a ≡ b
  Same (list xs) (list ys) = SameItems xs ys
  Same (dict f) (dict g) = (key : Text) → SameKey f key (lookup key g)
  Same _ _ = ⊥

  pub SameKey : Fields → Text → Option Json → Type 0
  SameKey end key none = Unit {0}
  SameKey end key (some w) = ⊥
  SameKey (field k v rest) key none = if text_eq k key then ⊥ else SameKey rest key none
  SameKey (field k v rest) key (some w) =
      if text_eq k key then Same v w else SameKey rest key (some w)

  pub SameItems : Items → Items → Type 0
  SameItems nil nil = Unit {0}
  SameItems nil (cons y ys) = ⊥
  SameItems (cons x xs) nil = ⊥
  SameItems (cons x xs) (cons y ys) = Same x y × SameItems xs ys

contains-insert :
    (key t : Text) (us : List Text)
    → contains_text key (insert_text t us) ≡ (text_eq t key || contains_text key us)
contains-insert key t [] = refl
contains-insert key t (u ∷ us) = ground (arith, contains-insert key t us)

contains-sorted :
    (key : Text) (ts : List Text) → contains_text key (sorted_texts ts) ≡ contains_text key ts
contains-sorted key [] = refl
contains-sorted key (t ∷ ts) =
    contains-insert key t (sorted_texts ts) ∙ ap (λ b. text_eq t key || b) (contains-sorted key ts)

contains-append :
    (key : Text) (ts us : List Text)
    → contains_text key (ts ++ us) ≡ (contains_text key ts || contains_text key us)
contains-append key [] us = refl
contains-append key (t ∷ ts) us = ground (arith, contains-append key ts us)

-- A key that is kept out of the second list is in the first.
contains-keep :
    (key : Text) (p : Text → Bool) (us : List Text)
    → p key ≡ true
    → contains_text key (keep p us) ≡ contains_text key us
contains-keep key p [] h = refl
contains-keep key p (u ∷ us) h = elim (Bool-cases (text_eq u key)) [
  | inl same ↦ rw (ap p (eq_of_text_eq u key same) ∙ h, same) refl
  | inr other ↦ ground (arith, contains-keep key p us h)
]

-- A key that is not compared is in neither dict.
pub not_compared :
    (f g : Fields) (key : Text)
    → contains_text key (all_keys f g) ≡ false
    → (contains_text key (keys f) ≡ false) × (contains_text key (keys g) ≡ false)
unfolding all_keys
not_compared f g key e =
    let fresh = keep (λ k. not (contains_text k (keys f))) (keys g) in
    let parts : (contains_text key (keys f) || contains_text key fresh) ≡ false =
      sym (contains-append key (keys f) fresh) ∙ sym (contains-sorted key (keys f ++ fresh)) ∙ e in
    let outside : contains_text key (keys f) ≡ false = ground arith in
    (
      outside,
      sym (contains-keep key (λ k. not (contains_text k (keys f))) (keys g) (ap not outside))
          ∙ ground arith,
    )

pub lookup_missing :
    (g : Fields) (key : Text) → contains_text key (keys g) ≡ false → lookup key g ≡ none
lookup_missing end key e = refl
lookup_missing (field k v rest) key e = ground (arith, lookup_missing rest key)

pub SameKey-missing :
    (f : Fields) (key : Text) → contains_text key (keys f) ≡ false → SameKey f key none
SameKey-missing end key e = tt
SameKey-missing (field k v rest) key e =
    let other : text_eq k key ≡ false = ground arith in
    rw other (SameKey-missing rest key (ground arith))

pub append-eq-nil : (xs ys : List Difference) → xs ++ ys ≡ [] → (xs ≡ []) × (ys ≡ [])
append-eq-nil [] ys e = (refl, e)
append-eq-nil (x ∷ xs) ys e = absurd (cc)

pub for_keys_each :
    (d : Text → List Difference) (ks : List Text) (key : Text)
    → for_keys d ks ≡ []
    → contains_text key ks ≡ true
    → d key ≡ []
for_keys_each d [] key e h = absurd (cc)
for_keys_each d (k ∷ ks) key e h =
    let (here, there) = append-eq-nil (d k) (for_keys d ks) e in
    elim (Bool-cases (text_eq k key)) [
      | inl same ↦ subst (λ u. d u ≡ []) (eq_of_text_eq k key same) here
      | inr other ↦ for_keys_each d ks key there (ground arith)
    ]

pub for_keys_none :
    (d : Text → List Difference) (ks : List Text) → ((key : Text) → d key ≡ []) → for_keys d ks ≡ []
for_keys_none d [] h = refl
for_keys_none d (k ∷ ks) h = rw (h k) (for_keys_none d ks h)
