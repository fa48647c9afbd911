-- ===== src/Api/Policy.antt =====
-- python/foxreq/_normalize.py: `normalize_verify` and `resolve_runtime_dir`. The file system, the
-- environment and certifi, as they are at the time of the call, are a parameter.
use foxreq.Prelude.{
  ℕ, List, [], ◌∷◌, Bool, true, false, Option, none, some, not, if◌then◌else◌, ◌&&◌,
}
use foxreq.Prelude.Result.{Result, ok, err, ◌>>=◌}
use foxreq.Prelude.Text.{Text, text, text_eq}
use foxreq.Errors.{FoxreqError}
use foxreq.Anchors.{Anchor}
use foxreq.Worker.Process.{Failure, raises, system}
use foxreq.Api.Profiles.{or_error}
use foxreq.Api.Pem.{FileAnswer, configuration, read_pem_bundle}

pub record VerifyPolicy : Type 0 where
  pub anchors : List Anchor
  pub insecure : Bool

-- `Path(...).expanduser().resolve()`: a path, one of the exceptions of the handler, or another one.
pub data Resolved : Type 0 where
  resolved : Text → Resolved
  invalid unknown_home : Resolved

-- `certifi_where` is none where certifi is not installed.
pub record Environment : Type 0 where
  pub certifi_where : Option Text
  pub file_at : Text → FileAnswer
  pub der_of : Text → Option (List ℕ)
  pub runtime_variable : Option Text
  pub resolve : Text → Resolved
  pub is_dir : Text → Bool

-- The argument `verify`: a bool, or the path that `os.fspath` gives, none where it raises.
pub data VerifyArgument : Type 0 where
  flag : Bool → VerifyArgument
  path : Option Text → VerifyArgument

module _ (environment : Environment) where
  unfoldable pub verified_by : Text → Result FoxreqError VerifyPolicy
  verified_by p = do
    anchors ← read_pem_bundle environment.der_of (environment.file_at p)
    ok (record { anchors = anchors; insecure = false })

  unfoldable pub normalize_verify : VerifyArgument → Result FoxreqError VerifyPolicy
  unfolding verified_by
  normalize_verify (flag false) = ok (record { anchors = []; insecure = true })
  normalize_verify (flag true) =
      or_error environment.certifi_where
        (configuration (text "certifi is required for verify=True"))
      >>= verified_by
  normalize_verify (path p) =
      or_error p (configuration (text "verify must be bool or a PEM bundle path")) >>= verified_by

  abbrev pub or_variable : Option (Option Text) → Option (Option Text)
  or_variable (some selected) = some selected
  or_variable none = elim environment.runtime_variable [ none ↦ none | some t ↦ some (some t) ]

  abbrev pub checked_dir : Resolved → Result Failure Text
  checked_dir (resolved p) =
      if environment.is_dir p
      then ok p
      else err (raises (configuration (text "Firefox runtime directory does not exist")))
  checked_dir invalid = err (raises (configuration (text "Firefox runtime directory is invalid")))
  checked_dir unknown_home = err system

  abbrev pub selected_dir : Option (Option Text) → Result Failure Text
  selected_dir none =
      err (raises (configuration (text "runtime_dir or FOXREQ_NSS_RUNTIME_DIR is required")))
  selected_dir (some none) =
      err (raises (configuration (text "Firefox runtime directory is invalid")))
  selected_dir (some (some p)) = checked_dir (environment.resolve p)

  -- The argument is none, or a path as `os.fspath` gives it, none where that raises.
  unfoldable pub resolve_runtime_dir : Option (Option Text) → Result Failure Text
  resolve_runtime_dir value = selected_dir (or_variable value)

-- `a != b` of two lists of numbers, or of two lists of such lists, negated
abbrev pub anchors_eq : List Anchor → List Anchor → Bool
anchors_eq [] [] = true
anchors_eq (a ∷ as') (b ∷ bs) = text_eq a b && anchors_eq as' bs
anchors_eq _ _ = false

abbrev pub flag_eq : Bool → Bool → Bool
flag_eq true b = b
flag_eq false b = not b

unfoldable pub policy_eq : VerifyPolicy → VerifyPolicy → Bool
policy_eq p q = anchors_eq p.anchors q.anchors && flag_eq p.insecure q.insecure
