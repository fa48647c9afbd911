-- ===== src/Tests/Runtimes.antt =====
-- python/foxreq/_runtime_manifest.py at a lock of one file.
use foxreq.Prelude.{◌≡◌, refl, List, [], ◌∷◌, ◌++◌, true, false, Option, none, some}
use foxreq.Prelude.Result.{ok}
use foxreq.Prelude.Text.{Text, text, separated}
use foxreq.Json.{Json, str, list, dict, number, fields, items, equals_number}
use foxreq.Runtime.Names.{
  is_digits, is_dotted, safe_relative_name, is_plain_part, is_reserved, is_hex,
}
use foxreq.Runtime.Manifest.{
  Entry, validate_manifest, check_identity, legacy_identity, versions_valid, locked_version,
}
use foxreq.Runtime.Installed.{
  FileSystem, FileKind, Info, Machine, ValidatedRuntime, validate_runtime, platform_id,
}
use foxreq.Runtime.Locked.{IsInstalled, validate_runtime-IsInstalled}

abbrev digest : Text
digest = text "0123456789abcdef0123456789abcdef0123456789abcdef0123456789abcdef"

abbrev profile : Text
profile = text "firefox_152"

abbrev windows : Text
windows = text "windows-x86_64"

abbrev lock : Json
lock = dict (
    fields (
      (text "schema_version", number 1)
      ∷ (text "source_id", str (text "firefox-windows-x86_64-en-us"))
      ∷ (text "firefox_version", str (text "152.0.6"))
      ∷ (text "firefox_build_id", str (text "20260713164047"))
      ∷ (text "nss_version", str (text "3.124"))
      ∷ (text "nspr_version", str (text "4.39"))
      ∷ (
        text "files",
        list (
            items (
              dict (
                fields (
                  (text "filename", str (text "nss/nss3.dll"))
                  ∷ (text "size", number 2)
                  ∷ (text "sha256", str digest)
                  ∷ []))
              ∷ [])),
      )
      ∷ []))

abbrev entry : Entry
entry = record { filename = text "nss/nss3.dll"; size = 2; sha256 = digest }

lock_accepted : validate_manifest (λ t. t) (λ t. t) lock profile windows ≡ ok (entry ∷ [])
unfolding validate_manifest check_identity equals_number legacy_identity versions_valid
    locked_version is_digits is_dotted safe_relative_name is_plain_part is_reserved separated is_hex
lock_accepted = refl

abbrev machine : Machine
machine = record {
  machine = text "amd64";
  platform = text "win32";
  lower = λ t. t;
  upper = λ t. t;
  casefold = λ t. t;
}

abbrev info_of : List Text → Option Info
info_of [] = some (record { kind = FileKind.directory; reparse = false })
info_of (t ∷ ts) = some (record { kind = FileKind.regular; reparse = false })

-- One directory, in which every name is a file of two bytes.
abbrev files : FileSystem
files = record {
  Place = List Text;
  is_absolute = λ p. true;
  below_cwd = λ p. p;
  steps = λ p. p ∷ [];
  lstat = info_of;
  resolve = some;
  join = λ p parts. p ++ parts;
  content = λ p. some (1 ∷ 2 ∷ []);
}

abbrev locks : Text → Text → Option Json
locks id platform = some lock

abbrev installed : ValidatedRuntime files
installed = record {
  path = [];
  profile_id = profile;
  platform = windows;
  firefox_version = some (str (text "152.0.6"));
  firefox_build_id = some (str (text "20260713164047"));
  nss_version = some (str (text "3.124"));
  nspr_version = some (str (text "4.39"));
}

runtime_accepted :
    validate_runtime files (λ b. digest) machine locks profile (some []) none ≡ ok installed
unfolding validate_runtime platform_id validate_manifest check_identity equals_number
    legacy_identity versions_valid locked_version is_digits is_dotted safe_relative_name
    is_plain_part is_reserved separated is_hex
runtime_accepted = refl

validate_runtime-IsInstalled_example : IsInstalled files (λ b. digest) machine locks installed
validate_runtime-IsInstalled_example =
    validate_runtime-IsInstalled files (λ b. digest) machine locks profile (some []) none installed
      runtime_accepted
