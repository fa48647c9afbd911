-- ===== src/Profile/Resolve.antt =====
-- profile.py, `resolve_profile`: when a name is resolved, and to what.
use foxreq.Prelude.{
  ◌≡◌, ◌≢◌, ◌↔◌, refl, sym, ap, ap₂, subst, ◌∙◌, List, [], ◌∷◌, ◌++◌, map, false, Option, none,
  some, arith, Bool-cases, inl, inr, append_assoc, append-nil, map-append,
}
use foxreq.Prelude.Lists.{All, All-append, All-append_left, All-append_right}
use foxreq.Prelude.Result.{ok, bind-eq-ok}
use foxreq.Prelude.Text.{text, Text, text_eq, eq_of_text_eq, text_eq_refl}
use foxreq.Profile.{
  ProfileManifest, Index, indexed, is_indexed, add_names, names_of, add_manifests, resolve_profile,
  or_failed,
}

-- No name stands twice.
abbrev pub IsDistinct : List Text → Type 0
IsDistinct [] = Unit {0}
IsDistinct (t ∷ ts) = All (λ u. t ≢ u) ts × IsDistinct ts

abbrev pub entries : ProfileManifest → List Text → Index
entries m names = map (λ n. (n, m)) names

abbrev pub all_entries : List ProfileManifest → Index
all_entries [] = []
all_entries (m ∷ ms) = entries m (names_of m) ++ all_entries ms

abbrev pub key_list : Index → List Text
key_list = map λ e. e.0

-- A name and its manifest in the index.
abbrev pub Entry : Text → ProfileManifest → Index → Type 0
Entry name m index = (before after : Index) × (index ≡ before ++ ((name, m) ∷ after))

text_eq_ne : (a b : Text) → a ≢ b → text_eq a b ≡ false
text_eq_ne a b n = elim (Bool-cases (text_eq a b)) [
  | inl e ↦ absurd (n (eq_of_text_eq a b e))
  | inr e ↦ e
]

pub ne_of_text_eq : (a b : Text) → text_eq a b ≡ false → a ≢ b
ne_of_text_eq a b e same = ground (arith, ap (λ t. text_eq a t) same, text_eq_refl a)

is_indexed-All :
    (name : Text) (index : Index)
    → (is_indexed name index ≡ false) ↔ All (λ k. k ≢ name) (key_list index)
is_indexed-All name [] = (λ e. tt, λ h. refl)
is_indexed-All name ((k, m) ∷ rest) = (
  λ e. (ne_of_text_eq k name (ground arith), (is_indexed-All name rest).0 (ground arith)),
  λ h. rw (text_eq_ne k name h.0) ((is_indexed-All name rest).1 h.1),
)

IsDistinct-snoc :
    (ts : List Text) (n : Text) → IsDistinct ts → All (λ k. k ≢ n) ts → IsDistinct (ts ++ (n ∷ []))
IsDistinct-snoc [] n d h = (tt, tt)
IsDistinct-snoc (t ∷ ts) n (first, rest) (a, h) =
    (All-append (λ u. t ≢ u) ts (n ∷ []) first (a, tt), IsDistinct-snoc ts n rest h)

IsDistinct-middle :
    (ts us : List Text) (n : Text) → IsDistinct (ts ++ (n ∷ us)) → All (λ k. k ≢ n) ts
IsDistinct-middle [] us n d = tt
IsDistinct-middle (t ∷ ts) us n (first, rest) =
    ((All-append_right (λ u. t ≢ u) ts (n ∷ us) first).0, IsDistinct-middle ts us n rest)

abbrev Built : Index → List Text → Index → Index → Type 0
Built index names added i = (i ≡ index ++ added) × IsDistinct (key_list index ++ names)

-- The keys after one more entry.
keys_snoc :
    (index : Index) (n : Text) (m : ProfileManifest) (ns : List Text)
    → key_list (index ++ ((n, m) ∷ [])) ++ ns ≡ key_list index ++ (n ∷ ns)
keys_snoc index n m ns =
    rw (map-append (λ (e : Text × ProfileManifest). e.0))
      (append_assoc (key_list index) (n ∷ []) ns)

add_names-Built :
    (index : Index) (m : ProfileManifest) (names : List Text) (i : Index)
    → IsDistinct (key_list index)
    → add_names index m names ≡ ok i
    → Built index names (entries m names) i
unfolding add_names
add_names-Built index m [] i d e =
    (ground (arith, append-nil index), subst IsDistinct (sym (append-nil (key_list index))) d)
add_names-Built index m (n ∷ ns) i d e = elim (Bool-cases (is_indexed n index)) [
  | inl found ↦ absurd (ground arith)
  | inr fresh ↦
      let next = index ++ ((n, m) ∷ []) in
      let distinct : IsDistinct (key_list next) =
        rw (map-append (λ (x : Text × ProfileManifest). x.0))
          (IsDistinct-snoc (key_list index) n d ((is_indexed-All n index).0 fresh)) in
      let (same, all_distinct) = add_names-Built next m ns i distinct (ground arith) in
      (
        same ∙ append_assoc index ((n, m) ∷ []) (entries m ns),
        subst IsDistinct (keys_snoc index n m ns) all_distinct,
      )
]

add_names_ok :
    (index : Index) (m : ProfileManifest) (names : List Text)
    → IsDistinct (key_list index ++ names)
    → add_names index m names ≡ ok (index ++ entries m names)
unfolding add_names
add_names_ok index m [] d = ap ok (sym (append-nil index))
add_names_ok index m (n ∷ ns) d =
    rw ((is_indexed-All n index).1 (IsDistinct-middle (key_list index) ns n d)) (
      add_names_ok (index ++ ((n, m) ∷ [])) m ns (subst IsDistinct (sym (keys_snoc index n m ns)) d)
      ∙ ap ok (append_assoc index ((n, m) ∷ []) (entries m ns)))

keys_entries : (m : ProfileManifest) (names : List Text) → key_list (entries m names) ≡ names
keys_entries m [] = refl
keys_entries m (n ∷ ns) = ap (λ r. n ∷ r) (keys_entries m ns)

-- The keys of an index, and those that one more manifest and the rest add.
keys_split :
    (index : Index) (m : ProfileManifest) (rest : Index)
    → key_list (index ++ entries m (names_of m)) ++ key_list rest
      ≡ key_list index ++ key_list (entries m (names_of m) ++ rest)
keys_split index m rest =
    rw
      (
        map-append (λ (x : Text × ProfileManifest). x.0) index (entries m (names_of m)),
        map-append (λ (x : Text × ProfileManifest). x.0) (entries m (names_of m)) rest,
      )
      (append_assoc (key_list index) (key_list (entries m (names_of m))) (key_list rest))

IsDistinct-left : (ts us : List Text) → IsDistinct (ts ++ us) → IsDistinct ts
IsDistinct-left [] us d = tt
IsDistinct-left (t ∷ ts) us d = (All-append_left (λ u. t ≢ u) ts us d.0, IsDistinct-left ts us d.1)

keys_before :
    (index : Index) (m : ProfileManifest)
    → key_list index ++ names_of m ≡ key_list (index ++ entries m (names_of m))
keys_before index m =
    rw (map-append (λ (x : Text × ProfileManifest). x.0) index (entries m (names_of m)))
      (ap (λ r. key_list index ++ r) (sym (keys_entries m (names_of m))))

add_manifests-Built :
    (index : Index) (ms : List ProfileManifest) (i : Index)
    → IsDistinct (key_list index)
    → add_manifests index ms ≡ ok i
    → Built index (key_list (all_entries ms)) (all_entries ms) i
unfolding add_manifests
add_manifests-Built index [] i d e =
    (ground (arith, append-nil index), subst IsDistinct (sym (append-nil (key_list index))) d)
add_manifests-Built index (m ∷ ms) i d e =
    let (j, p, q) = bind-eq-ok (add_names index m (names_of m)) (λ k. add_manifests k ms) i e in
    let (same, distinct) = add_names-Built index m (names_of m) j d p in
    let next = index ++ entries m (names_of m) in
    let (same', distinct') =
      add_manifests-Built next ms i (subst IsDistinct (keys_before index m) distinct)
        (ap (λ k. add_manifests k ms) (sym same) ∙ q) in
    (
      same' ∙ append_assoc index (entries m (names_of m)) (all_entries ms),
      subst IsDistinct (keys_split index m (all_entries ms)) distinct',
    )

add_manifests_ok :
    (index : Index) (ms : List ProfileManifest)
    → IsDistinct (key_list index ++ key_list (all_entries ms))
    → add_manifests index ms ≡ ok (index ++ all_entries ms)
unfolding add_manifests
add_manifests_ok index [] d = ap ok (sym (append-nil index))
add_manifests_ok index (m ∷ ms) d =
    let split = subst IsDistinct (sym (keys_split index m (all_entries ms))) d in
    rw
      (add_names_ok index m (names_of m) (
        subst IsDistinct (sym (keys_before index m)) (
          IsDistinct-left (key_list (index ++ entries m (names_of m))) (key_list (all_entries ms))
            split)))
      (add_manifests_ok (index ++ entries m (names_of m)) ms split
        ∙ ap ok (append_assoc index (entries m (names_of m)) (all_entries ms)))

indexed-Entry :
    (name : Text) (m : ProfileManifest) (index : Index)
    → indexed name index ≡ some m
    → Entry name m index
indexed-Entry name m [] e = absurd (cc)
indexed-Entry name m ((k, m') ∷ rest) e = elim (Bool-cases (text_eq k name)) [
  | inl same ↦
      let here : m' ≡ m = ground arith in
      (
        [],
        rest,
        ap₂ (λ (a : Text) (b : ProfileManifest). (a, b) ∷ rest) (eq_of_text_eq k name same) here,
      )
  | inr other ↦
      let (before, after, p) = indexed-Entry name m rest (ground arith) in
      ((k, m') ∷ before, after, ap (λ r. (k, m') ∷ r) p)
]

indexed_distinct :
    (name : Text) (m : ProfileManifest) (before after : Index)
    → All (λ k. k ≢ name) (key_list before)
    → indexed name (before ++ ((name, m) ∷ after)) ≡ some m
indexed_distinct name m [] after h = rw (text_eq_refl name) refl
indexed_distinct name m ((k, m') ∷ before) after h =
    rw (text_eq_ne k name h.0) (indexed_distinct name m before after h.1)

-- Resolving a name gives a manifest exactly when no name or alias stands twice in all the manifests
-- and the name is the name or an alias of that manifest, which is one of them.
pub resolve_profile_iff :
    (name : Text) (ms : List ProfileManifest) (m : ProfileManifest)
    → (resolve_profile name ms ≡ ok m)
      ↔ (IsDistinct (key_list (all_entries ms)) × Entry name m (all_entries ms))
unfolding resolve_profile
resolve_profile_iff name ms m = (
  λ e.
      let (i, p, q) = bind-eq-ok (add_manifests [] ms) _ m e in
      let (same, distinct) = add_manifests-Built [] ms i tt p in
      (distinct, subst (Entry name m) same (indexed-Entry name m i (found (indexed name i) q))),
  λ (distinct, (before, after, p)). rw (add_manifests_ok [] ms distinct) (
      ap (λ o. or_failed o (text "unknown profile: " ++ name))
        (ap (indexed name) p
          ∙ indexed_distinct name m before after (
              IsDistinct-middle (key_list before) (key_list after) name (
                subst IsDistinct
                  (ap key_list p
                    ∙ map-append (λ (x : Text × ProfileManifest). x.0) before ((name, m) ∷ after))
                  distinct)))),
)
  where
    found :
        (o : Option ProfileManifest)
        → or_failed o (text "unknown profile: " ++ name) ≡ ok m
        → o ≡ some m
    found none e = absurd (cc)
    found (some x) e = cc
