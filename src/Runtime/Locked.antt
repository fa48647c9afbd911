-- ===== src/Runtime/Locked.antt =====
-- _runtime_manifest.py: a runtime that is accepted is the one that was locked.
use foxreq.Prelude.{
  ℕ, ◌≡◌, refl, List, [], ◌∷◌, ◌++◌, Bool, true, false, Option, none, some, not, ◌&&◌, ◌==◌,
  &&-eq-true, ==_iff, if◌then◌else◌,
}
use foxreq.Prelude.Lists.{All, length}
use foxreq.Prelude.Result.{ok, bind-eq-ok, Ensures, bind-Ensures, ok-Ensures}
use foxreq.Prelude.Text.{Text, text, text_eq, eq_of_text_eq}
use foxreq.Json.{Json, contains_text}
use foxreq.Runtime.Names.{path_parts}
use foxreq.Runtime.Manifest.{Entry, require, validate_manifest}
use foxreq.Runtime.Installed.{
  FileSystem, Machine, ValidatedRuntime, has_reparse_component, is_plain_file, is_plain_directory,
  read_or_error, check_file, check_all, runtime_path, or_invalid, not_regular, selected_platform,
  lock_or_error, unavailable, validate_runtime,
}

module _ (files : FileSystem) (sha256 : List ℕ → Text) where
  -- A regular file with the content that was locked.
  pub record IsGenuine (runtime : files.Place) (entry : Entry) : Type 0 where
    pub regular : is_plain_file files sha256 (files.join runtime (path_parts entry.filename)) ≡ true
    pub content : List ℕ
    pub found : files.content (files.join runtime (path_parts entry.filename)) ≡ some content
    pub size : length content ≡ entry.size
    pub digest : sha256 content ≡ entry.sha256

  require-eq-ok : (b : Bool) (message : Text) (u : Unit {0}) → require b message ≡ ok u → b ≡ true
  require-eq-ok true message u e = refl
  require-eq-ok false message u e = absurd (cc)

  read_or_error-eq-ok :
      (name : Text) (o : Option (List ℕ)) (c : List ℕ)
      → read_or_error files sha256 name o ≡ ok c
      → o ≡ some c
  read_or_error-eq-ok name none c e = absurd (cc)
  read_or_error-eq-ok name (some b) c e = cc

  check_file-IsGenuine :
      (runtime : files.Place) (entry : Entry) (u : Unit {0})
      → check_file files sha256 runtime entry ≡ ok u
      → IsGenuine runtime entry
  unfolding check_file
  check_file-IsGenuine runtime entry u e =
      let candidate = files.join runtime (path_parts entry.filename) in
      let direct = not (has_reparse_component files sha256 candidate) in
      let (v, p, e) =
        bind-eq-ok
          (require (direct && is_plain_file files sha256 candidate)
            (text "Firefox runtime file must be a regular file: " ++ entry.filename))
          _ u e in
      let (content, q, e) =
        bind-eq-ok (read_or_error files sha256 entry.filename (files.content candidate)) _ u e in
      let (no_link, regular) =
        &&-eq-true direct (is_plain_file files sha256 candidate) (require-eq-ok _ _ v p) in
      let (size, digest) =
        &&-eq-true (length content == entry.size) (text_eq (sha256 content) entry.sha256)
          (require-eq-ok _ _ u e) in
      record {
        regular = regular;
        content = content;
        found = read_or_error-eq-ok entry.filename (files.content candidate) content q;
        size = (==_iff (length content) entry.size).0 size;
        digest = eq_of_text_eq (sha256 content) entry.sha256 digest;
      }

  check_all-IsGenuine :
      (runtime : files.Place) (entries : List Entry) (u : Unit {0})
      → check_all files sha256 runtime entries ≡ ok u
      → All (IsGenuine runtime) entries
  unfolding check_all
  check_all-IsGenuine runtime [] u e = tt
  check_all-IsGenuine runtime (entry ∷ entries) u e =
      let (v, p, e) = bind-eq-ok (check_file files sha256 runtime entry) _ u e in
      (check_file-IsGenuine runtime entry v p, check_all-IsGenuine runtime entries u e)

  -- What a validated runtime is: that of the lock for its profile and platform.
  pub record IsInstalled (machine : Machine) (locks : Text → Text → Option Json)
      (v : ValidatedRuntime files) : Type 0 where
    pub lock : Json
    pub entries : List Entry
    pub locked : locks v.profile_id v.platform ≡ some lock
    pub accepted :
        validate_manifest machine.upper machine.casefold lock v.profile_id v.platform ≡ ok entries
    pub directory : is_plain_directory files sha256 v.path ≡ true
    pub genuine : All (IsGenuine v.path) entries

  lock_or_error-eq-ok :
      (o : Option Json) (lock : Json) → lock_or_error files sha256 o ≡ ok lock → o ≡ some lock
  lock_or_error-eq-ok none lock e = absurd (cc)
  lock_or_error-eq-ok (some l) lock e = cc

  abbrev IsDirectory : files.Place → Type 0
  IsDirectory p = is_plain_directory files sha256 p ≡ true

  runtime_path-IsDirectory :
      (argument : Option files.Place) → Ensures IsDirectory (runtime_path files sha256 argument)
  unfolding runtime_path
  runtime_path-IsDirectory argument =
      bind-Ensures IsDirectory (or_invalid files sha256 argument) _ λ given e.
        let requested = if files.is_absolute given then given else files.below_cwd given in
        bind-Ensures IsDirectory
          (require (not (has_reparse_component files sha256 requested)) (not_regular files sha256))
          _
          λ u e.
            bind-Ensures IsDirectory (or_invalid files sha256 (files.resolve requested)) _
              λ runtime e.
                bind-Ensures IsDirectory
                  (require (is_plain_directory files sha256 runtime) (not_regular files sha256)) _
                  λ u e. ok-Ensures IsDirectory runtime (
                    require-eq-ok (is_plain_directory files sha256 runtime)
                      (not_regular files sha256) u e)

  validated :
      (machine : Machine) (locks : Text → Text → Option Json) (profile : Text)
      (argument : Option files.Place) (platform : Option Text)
      → Ensures
          (IsInstalled machine locks)
          (validate_runtime files sha256 machine locks profile argument platform)
  unfolding validate_runtime
  validated machine locks profile argument platform =
      let P = IsInstalled machine locks in
      bind-Ensures P (selected_platform files sha256 machine platform) _ λ selected e.
        bind-Ensures P
          (require
            (contains_text profile (text "firefox_140_esr" ∷ text "firefox_152" ∷ [])
              && contains_text selected (text "windows-x86_64" ∷ text "linux-x86_64" ∷ []))
            (unavailable files sha256))
          _
          λ u e. bind-Ensures P (lock_or_error files sha256 (locks profile selected)) _ λ lock el.
            bind-Ensures P (validate_manifest machine.upper machine.casefold lock profile selected)
              _
              λ entries ev. bind-Ensures P (runtime_path files sha256 argument) _ λ runtime er.
                bind-Ensures P (check_all files sha256 runtime entries) _ λ u ec.
                  ok-Ensures P _ (record {
                    lock = lock;
                    entries = entries;
                    locked = lock_or_error-eq-ok (locks profile selected) lock el;
                    accepted = ev;
                    directory = (runtime_path-IsDirectory argument).ensures runtime er;
                    genuine = check_all-IsGenuine runtime entries u ec;
                  })

  -- A runtime that is accepted is a plain directory in which every file of the lock for its profile and
  -- platform, a lock that is accepted itself, is a regular file with the size and the SHA-256 digest of the lock.
  pub validate_runtime-IsInstalled :
      (machine : Machine) (locks : Text → Text → Option Json) (profile : Text)
      (argument : Option files.Place) (platform : Option Text) (v : ValidatedRuntime files)
      → validate_runtime files sha256 machine locks profile argument platform ≡ ok v
      → IsInstalled machine locks v
  validate_runtime-IsInstalled machine locks profile argument platform v e =
      (validated machine locks profile argument platform).ensures v e
