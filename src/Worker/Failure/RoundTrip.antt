-- ===== src/Worker/Failure/RoundTrip.antt =====
-- A native error looks the same from the parent as it would in the worker's process.
use foxreq.Prelude.{
  ℕ, zero, suc, ◌<◌, ◌≡◌, refl, ap, ◌∙◌, [], ◌∷◌, Option, none, some, ◌==◌, ◌&&◌, arith,
}
use foxreq.Prelude.Lists
use foxreq.Prelude.Lists.{length}
use foxreq.Prelude.Text.{text, Text, text_eq}
use foxreq.Errors.{NativeError, native_kind, kind_or_internal, or_default, translate_native_error}
use foxreq.Json.{str}
use foxreq.Worker.Failure.{text_or, native_error_metadata, remote_error, remote_exception}

-- A longer text differs from a shorter literal within its first characters already.
text_eq-take :
    (n : ℕ) (t literal : Text)
    → length literal < n
    → text_eq (Lists.take n t) literal ≡ text_eq t literal
text_eq-take zero t literal h = absurd (omega arith)
text_eq-take (suc n) [] literal h = refl
text_eq-take (suc n) (c ∷ cs) [] h = refl
text_eq-take (suc n) (c ∷ cs) (x ∷ xs) h =
    ap (λ b. c == x && b) (text_eq-take n cs xs (omega arith))

native_kind-take : (t : Text) → native_kind (Lists.take 64 t) ≡ native_kind t
unfolding native_kind
native_kind-take t =
    rw
      (
        text_eq-take 64 t (text "invalid_argument") (omega arith),
        text_eq-take 64 t (text "closed") (omega arith),
        text_eq-take 64 t (text "timeout") (omega arith),
        text_eq-take 64 t (text "connection") (omega arith),
        text_eq-take 64 t (text "tls") (omega arith),
        text_eq-take 64 t (text "certificate") (omega arith),
        text_eq-take 64 t (text "protocol") (omega arith),
      )
      refl

kind_sent :
    (k : Option Text)
    → native_kind (Lists.take 64 (text_or (text "internal") k)) ≡ native_kind (kind_or_internal k)
kind_sent none = unfold native_kind in refl
kind_sent (some []) = unfold native_kind in refl
kind_sent (some (c ∷ cs)) = native_kind-take (c ∷ cs)

message_sent :
    (k : Text) (m : Option Text) (c : ℕ) (default : Text)
    → remote_error (some (str k)) (some (str (Lists.take 1024 (text_or (c ∷ default) m))))
      ≡ record { kind = native_kind k; message = Lists.take 1024 (or_default m (c ∷ default)) }
unfolding remote_error translate_native_error
message_sent k none c default = refl
message_sent k (some []) c default = refl
message_sent k (some (d ∷ ds)) c default = refl

-- The parent raises for an error frame what the worker's native error is translated to, in kind, with
-- the first 1024 characters of the message.
pub remote_exception-native_error_metadata :
    (e : NativeError) (id : Option ℕ)
    → remote_exception (native_error_metadata e id) ≡ record {
      kind = (translate_native_error e).kind;
      message = Lists.take 1024 (translate_native_error e).message;
    }
unfolding remote_exception native_error_metadata translate_native_error
remote_exception-native_error_metadata e id =
    message_sent (Lists.take 64 (text_or (text "internal") e.kind)) e.message _ _
    ∙ ap
        (λ k. record {
          kind = k;
          message = Lists.take 1024 (or_default e.message (text "foxreq native request failed"));
        })
        (kind_sent e.kind)
