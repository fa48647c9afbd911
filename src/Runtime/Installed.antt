-- ===== src/Runtime/Installed.antt =====
-- python/foxreq/_runtime_manifest.py: `validate_runtime`. The file system, the table of locks and
-- SHA-256 are parameters.
use foxreq.Prelude.{
  ℕ, List, [], ◌∷◌, ◌++◌, Bool, true, false, Option, none, some, not, ◌&&◌, ◌||◌, ◌==◌,
  if◌then◌else◌,
}
use foxreq.Prelude.Lists.{length}
use foxreq.Prelude.Result.{Result, ok, err, ◌>>=◌, ◌>>◌}
use foxreq.Prelude.Text.{Text, text, text_eq, starts_with}
use foxreq.Errors.{FoxreqError}
use foxreq.Json.{Json, dict, lookup, contains_text}
use foxreq.Runtime.Names.{path_parts}
use foxreq.Runtime.Manifest.{Entry, invalid_lock, require, validate_manifest}

-- What `lstat` tells of a path: the kind of its mode, and the reparse attribute of Windows.
pub data FileKind : Type 0 where
  directory regular link special : FileKind

pub record Info : Type 0 where
  pub kind : FileKind
  pub reparse : Bool

-- `steps` are the paths from below the anchor down to the path itself; `resolve` is none where it
-- raises OSError, `lstat` and `content` too. `content` is what `stat` measures and `_sha256` reads.
pub record FileSystem : Type 1 where
  pub Place : Type 0
  pub is_absolute : Place → Bool
  pub below_cwd : Place → Place
  pub steps : Place → List Place
  pub lstat : Place → Option Info
  pub resolve : Place → Option Place
  pub join : Place → List Text → Place
  pub content : Place → Option (List ℕ)

-- The interpreter's platform and its functions on text.
pub record Machine : Type 0 where
  pub machine : Text
  pub platform : Text
  pub lower : Text → Text
  pub upper : Text → Text
  pub casefold : Text → Text

unfoldable pub platform_id : Machine → Result FoxreqError Text
platform_id m =
    if not (contains_text (m.lower m.machine) (text "amd64" ∷ text "x86_64" ∷ []))
    then err (invalid_lock (text "Firefox runtime is not available for this architecture"))
    else if text_eq m.platform (text "win32")
    then ok (text "windows-x86_64")
    else if starts_with m.platform (text "linux")
    then ok (text "linux-x86_64")
    else err (invalid_lock (text "Firefox runtime is not available for this platform"))

abbrev pub is_directory : FileKind → Bool
is_directory FileKind.directory = true
is_directory _ = false

abbrev pub is_regular : FileKind → Bool
is_regular FileKind.regular = true
is_regular _ = false

abbrev pub is_link : FileKind → Bool
is_link FileKind.link = true
is_link _ = false

abbrev pub plain : (FileKind → Bool) → Option Info → Bool
plain test none = false
plain test (some info) = test info.kind && not info.reparse

pub record ValidatedRuntime (files : FileSystem) : Type 0 where
  pub path : files.Place
  pub profile_id : Text
  pub platform : Text
  pub firefox_version : Option Json
  pub firefox_build_id : Option Json
  pub nss_version : Option Json
  pub nspr_version : Option Json

module _ (files : FileSystem) (sha256 : List ℕ → Text) where
  -- The loop of `_has_reparse_component`: it ends at the first path that is not there.
  unfoldable pub reparse_loop : List files.Place → Bool
  reparse_loop [] = false
  reparse_loop (p ∷ ps) =
      let rest = reparse_loop ps in
      elim (files.lstat p) [
        | none ↦ false
        | some info ↦ if is_link info.kind || info.reparse then true else rest
      ]

  unfoldable pub has_reparse_component : files.Place → Bool
  unfolding reparse_loop
  has_reparse_component p = reparse_loop (files.steps p)

  unfoldable pub is_plain_directory : files.Place → Bool
  is_plain_directory p = plain is_directory (files.lstat p)

  unfoldable pub is_plain_file : files.Place → Bool
  is_plain_file p = plain is_regular (files.lstat p)

  abbrev pub read_or_error : Text → Option (List ℕ) → Result FoxreqError (List ℕ)
  read_or_error filename none =
      err (invalid_lock (text "Firefox runtime file could not be verified: " ++ filename))
  read_or_error filename (some content) = ok content

  -- One round of the loop over the files of the lock.
  unfoldable pub check_file : files.Place → Entry → Result FoxreqError (Unit {0})
  unfolding has_reparse_component is_plain_file
  check_file runtime entry = do
    let candidate = files.join runtime (path_parts entry.filename)
    require (not (has_reparse_component candidate) && is_plain_file candidate)
        (text "Firefox runtime file must be a regular file: " ++ entry.filename)
    content ← read_or_error entry.filename (files.content candidate)
    require (length content == entry.size && text_eq (sha256 content) entry.sha256)
        (text "Firefox runtime file does not match lock: " ++ entry.filename)

  unfoldable pub check_all : files.Place → List Entry → Result FoxreqError (Unit {0})
  unfolding check_file
  check_all runtime [] = ok tt
  check_all runtime (entry ∷ entries) = check_file runtime entry >> check_all runtime entries

  abbrev pub or_invalid : Option files.Place → Result FoxreqError files.Place
  or_invalid none = err (invalid_lock (text "Firefox runtime directory is invalid"))
  or_invalid (some p) = ok p

  abbrev pub not_regular : Text
  not_regular = text "Firefox runtime directory must be a regular directory"

  -- The directory that the argument names; none is an argument that `os.fspath` refuses.
  unfoldable pub runtime_path : Option files.Place → Result FoxreqError files.Place
  unfolding has_reparse_component is_plain_directory
  runtime_path argument = do
    given ← or_invalid argument
    let requested = if files.is_absolute given then given else files.below_cwd given
    require (not (has_reparse_component requested)) not_regular
    runtime ← or_invalid (files.resolve requested)
    require (is_plain_directory runtime) not_regular
    ok runtime

  abbrev pub unavailable : Text
  unavailable = text "Firefox runtime is not available for this profile/platform"

  abbrev pub selected_platform : Machine → Option Text → Result FoxreqError Text
  selected_platform machine none = platform_id machine
  selected_platform machine (some platform) = ok platform

  abbrev pub lock_or_error : Option Json → Result FoxreqError Json
  lock_or_error none = err (invalid_lock unavailable)
  lock_or_error (some lock) = ok lock

  abbrev pub value_of : Json → Text → Option Json
  value_of (dict f) key = lookup key f
  value_of _ key = none

  unfoldable pub validate_runtime :
      Machine
      → (Text → Text → Option Json)
      → Text
      → Option files.Place
      → Option Text
      → Result FoxreqError (ValidatedRuntime files)
  unfolding runtime_path check_all
  validate_runtime machine locks profile argument platform = do
    selected ← selected_platform machine platform
    require
        (contains_text profile (text "firefox_140_esr" ∷ text "firefox_152" ∷ [])
          && contains_text selected (text "windows-x86_64" ∷ text "linux-x86_64" ∷ []))
        unavailable
    lock ← lock_or_error (locks profile selected)
    entries ← validate_manifest machine.upper machine.casefold lock profile selected
    runtime ← runtime_path argument
    check_all runtime entries
    ok (record {
      path = runtime;
      profile_id = profile;
      platform = selected;
      firefox_version = value_of lock (text "firefox_version");
      firefox_build_id = value_of lock (text "firefox_build_id");
      nss_version = value_of lock (text "nss_version");
      nspr_version = value_of lock (text "nspr_version");
    })
