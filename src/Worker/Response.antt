-- ===== src/Worker/Response.antt =====
-- The response frame: `_write_response` of _profile_worker.py and `_decode_response` of
-- _worker_session.py.
pub mod RoundTrip
use foxreq.Prelude.{
  ℕ, List, [], ◌∷◌, Bool, true, false, Option, none, some, not, ◌||◌, ◌==◌, ltb, if◌then◌else◌, ℤ,
  pos,
}
use foxreq.Prelude.Result.{Result, ok, err}
use foxreq.Prelude.Options.{◌>>=◌}
use foxreq.Prelude.Text.{text, Text, text_eq, latin_1}
use foxreq.Errors.{FoxreqError, worker_error}
use foxreq.Json.{
  Json, Items, Fields, str, list, bool, int, real, fields, number, lookup, equals_number,
}
use foxreq.Worker.Request.{Header, headers_json, decode_headers, is_text}
use foxreq.Worker.Failure.{remote_exception}

-- `WorkerResponse`; the native session answers in the same shape.
pub record WorkerResponse : Type 0 where
  pub status : ℕ
  pub reason : List ℕ
  pub url : Text
  pub version : Text
  pub headers : List Header
  pub body : List ℕ

abbrev pub response_fields : ℕ → Items → WorkerResponse → Fields
response_fields id headers r = fields (
    (text "kind", str (text "response"))
    ∷ (text "id", number id)
    ∷ (text "status", number r.status)
    ∷ (text "reason", str r.reason)
    ∷ (text "url", str r.url)
    ∷ (text "version", str r.version)
    ∷ (text "headers", list headers)
    ∷ [])

-- `none` is the UnicodeError of a header name.
unfoldable pub response_metadata : WorkerResponse → ℕ → Option Fields
response_metadata r id = headers_json r.headers >>= λ headers. some (response_fields id headers r)

abbrev pub is_version : Text → Bool
is_version v = text_eq v (text "HTTP/1.0") || text_eq v (text "HTTP/1.1")

abbrev pub invalid_response : FoxreqError
invalid_response = worker_error (text "worker response metadata is invalid")

abbrev pub response_or_invalid : Option WorkerResponse → Result FoxreqError WorkerResponse
response_or_invalid none = err invalid_response
response_or_invalid (some r) = ok r

unfoldable pub decode_fields :
    Option Json
    → Option Json
    → Option Json
    → Option Json
    → Option Json
    → List ℕ
    → Result FoxreqError WorkerResponse
decode_fields (some (int (pos status))) (some (str reason)) (some (str url)) (some (str version))
      (some (list hs)) body =
    if ltb status 100 || (ltb 999 status || not (is_version version))
    then err invalid_response
    else response_or_invalid (do
      encoded ← latin_1 reason
      headers ← decode_headers hs
      some (record {
        status = status;
        reason = encoded;
        url = url;
        version = version;
        headers = headers;
        body = body;
      }))
decode_fields _ _ _ _ _ _ = err invalid_response

unfoldable pub decode_response : Fields → List ℕ → ℕ → Result FoxreqError WorkerResponse
unfolding equals_number decode_fields
decode_response f body request_id =
    if not (equals_number (lookup (text "id") f) request_id)
    then err (worker_error (text "worker response id is invalid"))
    else if is_text (lookup (text "kind") f) (text "error")
    then err (remote_exception f)
    else if not (is_text (lookup (text "kind") f) (text "response"))
    then err (worker_error (text "worker response kind is invalid"))
    else decode_fields (lookup (text "status") f) (lookup (text "reason") f) (lookup (text "url") f)
        (lookup (text "version") f) (lookup (text "headers") f) body
