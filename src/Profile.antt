-- ===== src/Profile.antt =====
-- tools/fingerprint/profile.py: profile manifests from JSON, and the resolution of a name or alias.
pub mod Manifest
pub mod Resolve
use foxreq.Prelude.{
  ℕ, zero, suc, List, [], ◌∷◌, ◌++◌, Bool, true, false, Option, none, some, not, ◌||◌,
  if◌then◌else◌, pos,
}
use foxreq.Prelude.Lists.{any, keep, all}
use foxreq.Prelude.Result.{Result, ok, err, ◌>>=◌, ◌>>◌}
use foxreq.Prelude.Text.{text, Text, text_eq, separated, sorted_texts}
use foxreq.Json.{
  Json, Items, Fields, str, list, int, dict, nil, cons, keys, lookup, contains_text, equals_number,
}

pub record ProfileError : Type 0 where
  pub message : Text

abbrev pub fields_of_manifest : List Text
fields_of_manifest =
    text "schema_version"
    ∷ text "name"
    ∷ text "firefox_version"
    ∷ text "aliases"
    ∷ text "nss_revision"
    ∷ text "nspr_revision"
    ∷ text "capture_count"
    ∷ text "extension_permutation"
    ∷ []

pub record ProfileManifest : Type 0 where
  pub schema_version : ℕ
  pub name : Text
  pub firefox_version : Text
  pub aliases : List Text
  pub nss_revision : Text
  pub nspr_revision : Text
  pub capture_count : ℕ
  pub extension_permutation : Text

abbrev pub failed {ℓ} : {A : Type ℓ} → Text → Result ProfileError A
failed message = err (record { message = message })

abbrev pub fail_if : Bool → Text → Result ProfileError (Unit {0})
fail_if b message = if b then failed message else ok tt

abbrev pub has_any : List Text → Bool
has_any [] = false
has_any (t ∷ ts) = true

unfoldable pub text_value : Option Json → Text → Result ProfileError Text
text_value (some (str (c ∷ cs))) field = ok (c ∷ cs)
text_value _ field = failed (field ++ text " must be a non-empty string")

-- `_required_text`
unfoldable pub required_text : Fields → Text → Result ProfileError Text
unfolding text_value
required_text f field = text_value (lookup field f) field

-- `isinstance(alias, str) and alias`, for each
abbrev pub alias_items : Items → Option (List Text)
alias_items nil = some []
alias_items (cons (str (c ∷ cs)) vs) = elim (alias_items vs) [
  | none ↦ none
  | some ts ↦ some ((c ∷ cs) ∷ ts)
]
alias_items (cons _ vs) = none

abbrev pub or_failed {ℓ} : {A : Type ℓ} → Option A → Text → Result ProfileError A
or_failed none message = failed message
or_failed (some a) message = ok a

unfoldable pub alias_list : Option Json → Result ProfileError (List Text)
alias_list (some (list vs)) =
    or_failed (alias_items vs) (text "aliases must be a list of non-empty strings")
alias_list _ = failed (text "aliases must be a list of non-empty strings")

-- `len(set(aliases)) != len(aliases)`
abbrev pub has_duplicates : List Text → Bool
has_duplicates [] = false
has_duplicates (t ∷ ts) = contains_text t ts || has_duplicates ts

unfoldable pub positive_count : Option Json → Result ProfileError ℕ
positive_count (some (int (pos (suc n)))) = ok (suc n)
positive_count _ = failed (text "capture_count must be a positive integer")

unfoldable pub permutation_value : Option Json → Result ProfileError Text
permutation_value (some (str t)) =
    if text_eq t (text "stable") || text_eq t (text "nss")
    then ok t
    else failed (text "extension_permutation must be stable or nss")
permutation_value _ = failed (text "extension_permutation must be stable or nss")

-- The tests on the keys and on the schema version.
unfoldable pub check_keys : Fields → Result ProfileError (Unit {0})
check_keys f = do
  let unknown = keep (λ k. not (contains_text k fields_of_manifest)) (keys f)
  let missing = keep (λ k. not (contains_text k (keys f))) fields_of_manifest
  fail_if (has_any unknown)
      (text "unexpected fields: " ++ separated (text ", ") (sorted_texts unknown))
  fail_if (has_any missing)
      (text "missing fields: " ++ separated (text ", ") (sorted_texts missing))
  fail_if (not (equals_number (lookup (text "schema_version") f) 1))
      (text "schema_version must be 1")

abbrev pub repeated_alias : Text
repeated_alias = text "aliases must not contain duplicates"

abbrev pub name_is_alias : Text
name_is_alias = text "profile name must not also be an alias"

unfoldable pub from_fields : Fields → Result ProfileError ProfileManifest
unfolding required_text alias_list positive_count permutation_value check_keys
from_fields f = do
  check_keys f
  aliases ← alias_list (lookup (text "aliases") f)
  fail_if (has_duplicates aliases) repeated_alias
  capture_count ← positive_count (lookup (text "capture_count") f)
  extension_permutation ← permutation_value (lookup (text "extension_permutation") f)
  name ← required_text f (text "name")
  fail_if (contains_text name aliases) name_is_alias
  firefox_version ← required_text f (text "firefox_version")
  nss_revision ← required_text f (text "nss_revision")
  nspr_revision ← required_text f (text "nspr_revision")
  ok (record {
    schema_version = 1;
    name = name;
    firefox_version = firefox_version;
    aliases = aliases;
    nss_revision = nss_revision;
    nspr_revision = nspr_revision;
    capture_count = capture_count;
    extension_permutation = extension_permutation;
  })

unfoldable pub from_dict : Json → Result ProfileError ProfileManifest
unfolding from_fields
from_dict (dict f) = from_fields f
from_dict _ = failed (text "profile manifest must be a mapping")

-- The dict `index`, in the order of insertion.
abbrev pub Index : Type 0
Index = List (Text × ProfileManifest)

abbrev pub indexed : Text → Index → Option ProfileManifest
indexed name [] = none
indexed name ((candidate, m) ∷ rest) = if text_eq candidate name then some m else indexed name rest

abbrev pub is_indexed : Text → Index → Bool
is_indexed name = any (λ entry. text_eq entry.0 name)

-- `for candidate in (manifest.name,) + manifest.aliases: ...`
unfoldable pub add_names : Index → ProfileManifest → List Text → Result ProfileError Index
add_names index m [] = ok index
add_names index m (candidate ∷ rest) =
    if is_indexed candidate index
    then failed (text "duplicate alias or profile name: " ++ candidate)
    else add_names (index ++ ((candidate, m) ∷ [])) m rest

abbrev pub names_of : ProfileManifest → List Text
names_of m = m.name ∷ m.aliases

unfoldable pub add_manifests : Index → List ProfileManifest → Result ProfileError Index
unfolding add_names
add_manifests index [] = ok index
add_manifests index (m ∷ ms) = add_names index m (names_of m) >>= λ i. add_manifests i ms

unfoldable pub resolve_profile : Text → List ProfileManifest → Result ProfileError ProfileManifest
unfolding add_manifests
resolve_profile name manifests = do
  index ← add_manifests [] manifests
  or_failed (indexed name index) (text "unknown profile: " ++ name)
