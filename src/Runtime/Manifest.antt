-- ===== src/Runtime/Manifest.antt =====
-- python/foxreq/_runtime_manifest.py: `_validate_manifest`. `str.upper` and `str.casefold` are
-- parameters.
use foxreq.Prelude.{
  ℕ, List, [], ◌∷◌, Bool, true, false, Option, some, not, ◌&&◌, ◌==◌, if◌then◌else◌, pos, map,
}
use foxreq.Prelude.Result.{Result, ok, err, ◌>>=◌, ◌>>◌}
use foxreq.Prelude.Text.{Text, text, text_eq, is_empty, sorted_texts}
use foxreq.Errors.{FoxreqError, Kind}
use foxreq.Json.{
  Json, Items, Fields, str, int, list, dict, nil, cons, lookup, has_keys, contains_text,
  equals_number,
}
use foxreq.Runtime.Names.{safe_relative_name, is_hex, is_digits, is_dotted}

-- A file of a lock that is accepted.
pub record Entry : Type 0 where
  pub filename : Text
  pub size : ℕ
  pub sha256 : Text

abbrev pub invalid_lock : Text → FoxreqError
invalid_lock message = record { kind = Kind.configuration; message = message }

-- Goes on where the test holds.
abbrev pub require : Bool → Text → Result FoxreqError (Unit {0})
require test message = if test then ok tt else err (invalid_lock message)

-- `manifest.get(name) == t`
abbrev pub equals_text : Option Json → Text → Bool
equals_text (some (str u)) t = text_eq u t
equals_text _ t = false

-- The string that passes a test, as in `_nonempty` and `_matches`.
abbrev pub text_where : (Text → Bool) → Option Json → Bool
text_where p (some (str t)) = p t
text_where p _ = false

abbrev pub nonempty : Option Json → Bool
nonempty = text_where (λ t. not (is_empty t))

-- `_positive_integer`
abbrev pub positive_integer : Option Json → Bool
positive_integer (some (int (pos n))) = not (n == 0)
positive_integer _ = false

unfoldable pub schema_two_fields : List Text
schema_two_fields =
    text "schema_version"
    ∷ text "profile"
    ∷ text "platform"
    ∷ text "source_id"
    ∷ text "source_url"
    ∷ text "source_size"
    ∷ text "source_sha256"
    ∷ text "source_sha512"
    ∷ text "firefox_version"
    ∷ text "firefox_build_id"
    ∷ text "nss_version"
    ∷ text "nspr_version"
    ∷ text "files"
    ∷ []

-- The identity of a lock of schema 1, and of one of schema 2.
unfoldable pub legacy_identity : Fields → Text → Text → Bool
legacy_identity f profile platform =
    text_eq profile (text "firefox_152")
    && (text_eq platform (text "windows-x86_64")
        && (equals_text (lookup (text "source_id") f) (text "firefox-windows-x86_64-en-us")
            && (equals_text (lookup (text "firefox_version") f) (text "152.0.6")
                && (equals_text (lookup (text "firefox_build_id") f) (text "20260713164047")
                    && (equals_text (lookup (text "nss_version") f) (text "3.124")
                        && equals_text (lookup (text "nspr_version") f) (text "4.39"))))))

unfoldable pub lock_identity : Fields → Text → Text → Bool
lock_identity f profile platform =
    has_keys f schema_two_fields
    && (equals_text (lookup (text "profile") f) profile
        && (equals_text (lookup (text "platform") f) platform
            && (nonempty (lookup (text "source_id") f)
                && (nonempty (lookup (text "source_url") f)
                    && (positive_integer (lookup (text "source_size") f)
                        && (text_where (is_hex 64) (lookup (text "source_sha256") f)
                            && text_where (is_hex 128) (lookup (text "source_sha512") f)))))))

unfoldable pub check_identity : Fields → Text → Text → Result FoxreqError (Unit {0})
check_identity f profile platform =
    let schema = lookup (text "schema_version") f in
    if equals_number schema 1
    then require (legacy_identity f profile platform)
        (text "legacy Firefox runtime lock identity is invalid")
    else if equals_number schema 2
    then require (lock_identity f profile platform)
        (text "embedded Firefox runtime lock identity is invalid")
    else err (invalid_lock (text "embedded Firefox runtime lock schema is unsupported"))

-- `_FIREFOX_VERSIONS[profile_id]`, of the two profiles that there are
unfoldable pub locked_version : Text → Text
locked_version profile =
    if text_eq profile (text "firefox_140_esr") then text "140.12.0" else text "152.0.6"

unfoldable pub versions_valid : Fields → Text → Bool
versions_valid f profile =
    nonempty (lookup (text "firefox_version") f)
    && (equals_text (lookup (text "firefox_version") f) (locked_version profile)
        && (text_where (is_digits 14) (lookup (text "firefox_build_id") f)
            && (text_where is_dotted (lookup (text "nss_version") f)
                && text_where is_dotted (lookup (text "nspr_version") f))))

abbrev pub texts_eq : List Text → List Text → Bool
texts_eq [] [] = true
texts_eq (t ∷ ts) (u ∷ us) = text_eq t u && texts_eq ts us
texts_eq _ _ = false

abbrev pub invalid_entry : FoxreqError
invalid_entry = invalid_lock (text "embedded Firefox runtime file entry is invalid")

abbrev pub invalid_list : FoxreqError
invalid_list = invalid_lock (text "embedded Firefox runtime file list is invalid")

module _ (upper casefold : Text → Text) where
  -- The tests on one entry; `names` holds the normalized names of those before it.
  unfoldable pub check_parts :
      List Text → Option Json → Option Json → Option Json → Result FoxreqError Entry
  check_parts names (some (str filename)) (some (int (pos size))) (some (str sha256)) =
      if safe_relative_name upper filename
        && (not (contains_text (casefold filename) names) && (not (size == 0) && is_hex 64 sha256))
      then ok (record { filename = filename; size = size; sha256 = sha256 })
      else err invalid_entry
  check_parts names _ _ _ = err invalid_entry

  unfoldable pub check_entry : List Text → Json → Result FoxreqError Entry
  unfolding check_parts
  check_entry names (dict f) =
      if has_keys f (text "filename" ∷ text "size" ∷ text "sha256" ∷ [])
      then check_parts names (lookup (text "filename") f) (lookup (text "size") f)
          (lookup (text "sha256") f)
      else err invalid_entry
  check_entry names _ = err invalid_entry

  unfoldable pub entry_loop : List Text → Items → Result FoxreqError (List Entry)
  unfolding check_entry
  entry_loop names nil = ok []
  entry_loop names (cons j js) = do
    entry ← check_entry names j
    entries ← entry_loop (casefold entry.filename ∷ names) js
    ok (entry ∷ entries)

  unfoldable pub check_files : Bool → Option Json → Result FoxreqError (List Entry)
  unfolding entry_loop
  check_files ordered (some (list (cons j js))) = do
    entries ← entry_loop [] (cons j js)
    let names = map (λ (e : Entry). e.filename) entries
    if ordered && not (texts_eq names (sorted_texts names)) then err invalid_list else ok entries
  check_files ordered _ = err invalid_list

  -- The entries that were checked; the code reads them from the lock again.
  unfoldable pub validate_manifest : Json → Text → Text → Result FoxreqError (List Entry)
  unfolding check_files
  validate_manifest (dict f) profile platform = do
    check_identity f profile platform
    require (versions_valid f profile) (text "embedded Firefox runtime versions are invalid")
    check_files (equals_number (lookup (text "schema_version") f) 2) (lookup (text "files") f)
  validate_manifest _ profile platform =
      err (invalid_lock (text "embedded Firefox runtime lock is invalid"))
