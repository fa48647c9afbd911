-- ===== src/Profile/Manifest.antt =====
-- profile.py, `ProfileManifest.from_dict`: what an accepted manifest is like.
use foxreq.Prelude.{
  ℕ, ◌<◌, ◌≡◌, ◌≢◌, ◌⊎◌, refl, sym, subst, ◌∙◌, List, [], ◌∷◌, Bool, false, Option, none, some,
  arith, Bool-cases, inl, inr,
}
use foxreq.Prelude.Lists.{All}
use foxreq.Prelude.Result.{ok, Ensures, bind-Ensures, ok-Ensures}
use foxreq.Prelude.Text.{text, Text, text_eq, eq_of_text_eq}
use foxreq.Json.{Json, Items, Fields, str, list, nil, cons, dict, contains_text, lookup}
use foxreq.Profile.{
  ProfileManifest, fail_if, text_value, required_text, alias_items, or_failed, alias_list,
  has_duplicates, positive_count, permutation_value, check_keys, repeated_alias, name_is_alias,
  from_fields, from_dict, names_of,
}
use foxreq.Profile.Resolve.{IsDistinct, ne_of_text_eq}

pub record IsManifest (m : ProfileManifest) : Type 0 where
  pub names_filled : All (λ n. n ≢ []) (names_of m)
  pub names_distinct : IsDistinct (names_of m)
  pub count : 0 < m.capture_count
  pub permutation :
      (m.extension_permutation ≡ text "stable") ⊎ (m.extension_permutation ≡ text "nss")
  pub version_filled : m.firefox_version ≢ []
  pub nss_filled : m.nss_revision ≢ []
  pub nspr_filled : m.nspr_revision ≢ []

text_value-ne : (v : Option Json) (field t : Text) → text_value v field ≡ ok t → t ≢ []
unfolding text_value
text_value-ne none field t e h = absurd (cc)
text_value-ne (some v) field t e h = ground (arith, h)

required_text-ne : (f : Fields) (field t : Text) → required_text f field ≡ ok t → t ≢ []
unfolding required_text
required_text-ne f field t e = text_value-ne (lookup field f) field t e

alias_items-filled : (vs : Items) (ts : List Text) → alias_items vs ≡ some ts → All (λ n. n ≢ []) ts
alias_items-filled nil ts e = subst (All (λ n. n ≢ [])) {x = []} (cc) tt
alias_items-filled (cons (str (c ∷ cs)) vs) ts e = rest (alias_items vs) (alias_items-filled vs) e
  where
    rest :
        (o : Option (List Text))
        → ((us : List Text) → o ≡ some us → All (λ n. n ≢ []) us)
        → elim o [ none ↦ none | some us ↦ some ((c ∷ cs) ∷ us) ] ≡ some ts
        → All (λ n. n ≢ []) ts
    rest none ih e = absurd (cc)
    rest (some us) ih e = subst (All (λ n. n ≢ [])) {x = (c ∷ cs) ∷ us} (cc) ((λ h. cc), ih us refl)
alias_items-filled (cons v vs) ts e = absurd (cc)

alias_list-filled : (v : Option Json) (ts : List Text) → alias_list v ≡ ok ts → All (λ n. n ≢ []) ts
unfolding alias_list
alias_list-filled none ts e = absurd (cc)
alias_list-filled (some (list vs)) ts e = alias_items-filled vs ts (found (alias_items vs) e)
  where
    found :
        (o : Option (List Text))
        → or_failed o (text "aliases must be a list of non-empty strings") ≡ ok ts
        → o ≡ some ts
    found none e = absurd (cc)
    found (some us) e = cc
alias_list-filled (some v) ts e = absurd (cc)

positive_count-lt : (v : Option Json) (n : ℕ) → positive_count v ≡ ok n → 0 < n
unfolding positive_count
positive_count-lt v n e = ground arith

contains_text-ne : (t : Text) (ts : List Text) → contains_text t ts ≡ false → All (λ u. t ≢ u) ts
contains_text-ne t [] e = tt
contains_text-ne t (u ∷ us) e =
    ((λ same. ne_of_text_eq u t (ground arith) (sym same)), contains_text-ne t us (ground arith))

has_duplicates-IsDistinct : (ts : List Text) → has_duplicates ts ≡ false → IsDistinct ts
has_duplicates-IsDistinct [] e = tt
has_duplicates-IsDistinct (t ∷ ts) e =
    (contains_text-ne t ts (ground arith), has_duplicates-IsDistinct ts (ground arith))

permutation_value-cases :
    (v : Option Json) (t : Text)
    → permutation_value v ≡ ok t
    → (t ≡ text "stable") ⊎ (t ≡ text "nss")
unfolding permutation_value
permutation_value-cases none t e = absurd (cc)
permutation_value-cases (some (str u)) t e = elim (Bool-cases (text_eq u (text "stable"))) [
  | inl a ↦ inl (same (ground arith) ∙ eq_of_text_eq u (text "stable") a)
  | inr a ↦ inr (same (ground arith) ∙ eq_of_text_eq u (text "nss") (ground arith))
]
  where
    same : u ≡ t → t ≡ u
    same q = sym q
permutation_value-cases (some v) t e = absurd (cc)

fail_if-ok : (b : Bool) (message : Text) (u : Unit {0}) → fail_if b message ≡ ok u → b ≡ false
fail_if-ok b message u e = ground arith

from_fields-Ensures : (f : Fields) → Ensures IsManifest (from_fields f)
unfolding from_fields
from_fields-Ensures f = bind-Ensures IsManifest (check_keys f) _ λ u p₁.
    bind-Ensures IsManifest (alias_list (lookup (text "aliases") f)) _ λ aliases a.
      bind-Ensures IsManifest (fail_if (has_duplicates aliases) repeated_alias) _ λ u distinct.
        bind-Ensures IsManifest (positive_count (lookup (text "capture_count") f)) _ λ n count.
          bind-Ensures IsManifest (permutation_value (lookup (text "extension_permutation") f)) _
            λ permutation q.
              bind-Ensures IsManifest (required_text f (text "name")) _ λ name filled.
                bind-Ensures IsManifest (fail_if (contains_text name aliases) name_is_alias) _
                  λ u no_alias.
                    bind-Ensures IsManifest (required_text f (text "firefox_version")) _
                      λ version v.
                        bind-Ensures IsManifest (required_text f (text "nss_revision")) _ λ nss s.
                          bind-Ensures IsManifest (required_text f (text "nspr_revision")) _
                            λ nspr t. ok-Ensures IsManifest _ (record {
                              names_filled = (
                                required_text-ne f (text "name") name filled,
                                alias_list-filled (lookup (text "aliases") f) aliases a,
                              );
                              names_distinct = (
                                contains_text-ne name aliases (fail_if-ok _ _ _ no_alias),
                                has_duplicates-IsDistinct aliases (fail_if-ok _ _ _ distinct),
                              );
                              count = positive_count-lt _ n count;
                              permutation =
                                  permutation_value-cases (lookup (text "extension_permutation") f)
                                    permutation q;
                              version_filled =
                                  required_text-ne f (text "firefox_version") version v;
                              nss_filled = required_text-ne f (text "nss_revision") nss s;
                              nspr_filled = required_text-ne f (text "nspr_revision") nspr t;
                            })

-- A manifest that is accepted has a name and aliases that are not empty and all
-- different, revisions and a version that are not empty, a positive number of captures, and one of
-- the two permutation policies.
pub from_dict-IsManifest :
    (data_value : Json) (m : ProfileManifest) → from_dict data_value ≡ ok m → IsManifest m
unfolding from_dict
from_dict-IsManifest (dict f) m e = (from_fields-Ensures f).ensures m e
from_dict-IsManifest v m e = absurd (cc)
