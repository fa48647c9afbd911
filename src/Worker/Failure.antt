-- ===== src/Worker/Failure.antt =====
-- The error frame: `_write_native_error` of _profile_worker.py and `_remote_exception` of
-- _worker_session.py.
pub mod RoundTrip
use foxreq.Prelude.{ℕ, List, [], ◌∷◌, ◌++◌, Bool, true, false, Option, none, some, if◌then◌else◌}
use foxreq.Prelude.Lists
use foxreq.Prelude.Text.{text, Text}
use foxreq.Errors.{FoxreqError, NativeError, worker_error, translate_native_error}
use foxreq.Json.{Json, Fields, str, fields, number, lookup}

-- A string attribute, or what stands in for one that is missing, empty or no string.
abbrev pub text_or : Text → Option Text → Text
text_or default (some (c ∷ cs)) = c ∷ cs
text_or default _ = default

abbrev pub id_entry : Option ℕ → List (Text × Json)
id_entry none = []
id_entry (some id) = (text "id", number id) ∷ []

unfoldable pub native_error_metadata : NativeError → Option ℕ → Fields
native_error_metadata error request_id = fields (
    ((text "kind", str (text "error"))
      ∷ (text "error_kind", str (Lists.take 64 (text_or (text "internal") error.kind)))
      ∷ (
        text "message",
        str (Lists.take 1024 (text_or (text "foxreq native request failed") error.message)),
      )
      ∷ [])
    ++ id_entry request_id)

unfoldable pub remote_error : Option Json → Option Json → FoxreqError
remote_error (some (str kind)) (some (str (c ∷ cs))) =
    translate_native_error (record { kind = some kind; message = some (c ∷ cs) })
remote_error _ _ = worker_error (text "isolated Firefox profile worker returned an invalid error")

unfoldable pub remote_exception : Fields → FoxreqError
unfolding remote_error
remote_exception f = remote_error (lookup (text "error_kind") f) (lookup (text "message") f)
