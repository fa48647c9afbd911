-- ===== src/Errors.antt =====
-- python/foxreq/_exceptions.py: the exceptions of the package and the translation of native errors.
use foxreq.Prelude.{[], Option, none, some, if◌then◌else◌}
use foxreq.Prelude.Text.{Text, text, text_eq}

-- The classes below `FoxreqError`; `base` is that class itself.
pub data Kind : Type 0 where
  base configuration invalid_request connection tls certificate timeout protocol closed_session
        worker :
      Kind

-- An instance with its message.
pub record FoxreqError : Type 0 where
  pub kind : Kind
  pub message : Text

-- Which class each class derives from.
abbrev pub parent : Kind → Option Kind
parent Kind.base = none
parent Kind.certificate = some Kind.tls
parent _ = some Kind.base

-- `_NATIVE_ERRORS.get(kind, FoxreqError)`
unfoldable pub native_kind : Text → Kind
native_kind kind =
    if text_eq kind (text "invalid_argument")
    then Kind.invalid_request
    else if text_eq kind (text "closed")
    then Kind.closed_session
    else if text_eq kind (text "timeout")
    then Kind.timeout
    else if text_eq kind (text "connection")
    then Kind.connection
    else if text_eq kind (text "tls")
    then Kind.tls
    else if text_eq kind (text "certificate")
    then Kind.certificate
    else if text_eq kind (text "protocol")
    then Kind.protocol
    else Kind.base

-- What `getattr` finds on a native error; `none` where the attribute is missing or no string.
pub record NativeError : Type 0 where
  pub kind : Option Text
  pub message : Option Text

abbrev pub or_default : Option Text → Text → Text
or_default none d = d
or_default (some []) d = d
or_default (some m) d = m

abbrev pub kind_or_internal : Option Text → Text
kind_or_internal none = text "internal"
kind_or_internal (some k) = k

unfoldable pub translate_native_error : NativeError → FoxreqError
unfolding native_kind
translate_native_error error = record {
  kind = native_kind (kind_or_internal error.kind);
  message = or_default error.message (text "foxreq native request failed");
}

abbrev pub worker_error : Text → FoxreqError
worker_error message = record { kind = Kind.worker; message = message }

-- Exceptions of Python itself that the package lets through.
pub data Raised : Type 0 where
  type_error value_error unicode_error key_error : Text → Raised
