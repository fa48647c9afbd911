-- ===== src/Worker/Request.antt =====
-- The request frame: its metadata as `ProfileWorkerSession.request` of _worker_session.py builds it,
-- and `_decode_init` and `_decode_request` of _profile_worker.py.
pub mod RoundTrip
use foxreq.Prelude.{
  ℕ, zero, suc, List, [], ◌∷◌, Bool, true, false, Option, none, some, not, ◌||◌, ◌==◌,
  if◌then◌else◌, ℤ, pos, negsuc,
}
use foxreq.Prelude.Result.{Result, ok, err}
use foxreq.Prelude.Options.{◌>>=◌}
use foxreq.Prelude.Text.{text, Text, text_eq, ascii, latin_1, is_empty}
use foxreq.Prelude.Float.{Float, is_finite, is_positive}
use foxreq.Errors.{FoxreqError, worker_error}
use foxreq.Json.{
  Json, Items, Fields, str, list, bool, int, real, nil, cons, items, fields, number, lookup,
  has_keys,
}

-- A header as bytes.
abbrev pub Header : Type 0
Header = List ℕ × List ℕ

-- The arguments of `native.request`.
pub record Request : Type 0 where
  pub method : List ℕ
  pub url : Text
  pub headers : List Header
  pub body : List ℕ
  pub timeout : Float
  pub insecure : Bool

-- What is raised while a frame is handled: a WorkerError, or any other exception.
pub data Thrown : Type 0 where
  worker : FoxreqError → Thrown
  other : Thrown

-- `[bytes(name).decode("ascii"), bytes(value).decode("latin-1")]`; `none` is the UnicodeError.
unfoldable pub header_json : Header → Option Json
header_json (name, value) = ascii name >>= λ n. some (list (cons (str n) (cons (str value) nil)))

unfoldable pub headers_json : List Header → Option Items
unfolding header_json
headers_json [] = some nil
headers_json (h ∷ hs) = header_json h >>= λ j. headers_json hs >>= λ js. some (cons j js)

abbrev pub metadata_fields : ℕ → Text → Text → Items → Request → Fields
metadata_fields id profile method headers r = fields (
    (text "kind", str (text "request"))
    ∷ (text "id", number id)
    ∷ (text "method", str method)
    ∷ (text "url", str r.url)
    ∷ (text "headers", list headers)
    ∷ (text "timeout", real r.timeout)
    ∷ (text "insecure", bool r.insecure)
    ∷ (text "profile", str profile)
    ∷ [])

unfoldable pub request_metadata : ℕ → Text → Request → Option Fields
request_metadata id profile r = do
  method ← ascii r.method
  headers ← headers_json r.headers
  some (metadata_fields id profile method headers r)

-- `value == t` of a string `t`
abbrev pub is_text : Option Json → Text → Bool
is_text (some (str u)) t = text_eq u t
is_text _ t = false

abbrev pub invalid_init : FoxreqError
invalid_init = worker_error (text "worker init frame is invalid")

abbrev pub filled_texts : Option Json → Option Json → Result FoxreqError (Text × Text)
filled_texts (some (str a)) (some (str b)) =
    if is_empty a || is_empty b then err invalid_init else ok (a, b)
filled_texts _ _ = err invalid_init

unfoldable pub decode_init : Fields → Result FoxreqError (Text × Text)
decode_init f =
    if not (has_keys f (text "kind" ∷ text "profile" ∷ text "runtime_dir" ∷ []))
    then err invalid_init
    else if not (is_text (lookup (text "kind") f) (text "init"))
    then err invalid_init
    else filled_texts (lookup (text "runtime_dir") f) (lookup (text "profile") f)

abbrev pub invalid_request : Thrown
invalid_request = worker (worker_error (text "worker request metadata is invalid"))

unfoldable pub decode_header : Json → Option Header
decode_header (list (cons (str name) (cons (str value) nil))) =
    ascii name >>= λ n. latin_1 value >>= λ v. some (n, v)
decode_header _ = none

unfoldable pub decode_headers : Items → Option (List Header)
unfolding decode_header
decode_headers nil = some []
decode_headers (cons j js) = decode_header j >>= λ h. decode_headers js >>= λ hs. some (h ∷ hs)

abbrev pub or_invalid {ℓ} : {A : Type ℓ} → Option A → Result Thrown A
or_invalid none = err invalid_request
or_invalid (some a) = ok a

abbrev pub is_positive_int : ℤ → Bool
is_positive_int (pos n) = not (n == 0)
is_positive_int (negsuc n) = false

-- `math.isfinite`, `timeout <= 0` and `float(timeout)`. An int is made a float, which may overflow:
-- `math.isfinite` then raises an exception that is no WorkerError.
module _ (float_of : ℤ → Option Float) where
  abbrev pub float_or_overflow : Option Float → Bool → Result Thrown (Option Float)
  float_or_overflow none positive = err other
  float_or_overflow (some x) positive = ok (if positive then some x else none)

  unfoldable pub decode_timeout : Option Json → Result Thrown (Option Float)
  decode_timeout (some (int z)) = float_or_overflow (float_of z) (is_positive_int z)
  decode_timeout (some (real x)) =
      ok (if not (is_finite x) then none else if is_positive x then some x else none)
  decode_timeout _ = ok none

  abbrev pub with_headers :
      ℕ → List ℕ → Text → Items → List ℕ → Float → Bool → Result Thrown (ℕ × Request)
  with_headers id method url hs body timeout insecure = or_invalid (do
    headers ← decode_headers hs
    m ← ascii method
    some (
      id,
      record {
        method = m;
        url = url;
        headers = headers;
        body = body;
        timeout = timeout;
        insecure = insecure;
      },
    ))

  abbrev pub with_flag :
      ℕ
      → Text
      → Text
      → Items
      → List ℕ
      → Option Json
      → Bool
      → Result Thrown (Option Float)
      → Result Thrown (ℕ × Request)
  with_flag id method url hs body insecure same_profile (err x) = err x
  with_flag id method url hs body insecure same_profile (ok none) = err invalid_request
  with_flag id method url hs body (some (bool b)) same_profile (ok (some timeout)) =
      if same_profile then with_headers id method url hs body timeout b else err invalid_request
  with_flag id method url hs body _ same_profile (ok (some timeout)) = err invalid_request

  unfoldable pub decode_parts :
      Option Json
      → Option Json
      → Option Json
      → Option Json
      → Option Json
      → Option Json
      → Bool
      → List ℕ
      → Result Thrown (ℕ × Request)
  decode_parts (some (int (pos id))) (some (str method)) (some (str url)) (some (list hs)) timeout
        insecure same_profile body =
      if id == 0 || (is_empty method || is_empty url)
      then err invalid_request
      else with_flag id method url hs body insecure same_profile (decode_timeout timeout)
  decode_parts _ _ _ _ _ _ _ _ = err invalid_request

  unfoldable pub decode_request : Fields → List ℕ → Text → Result Thrown (ℕ × Request)
  unfolding decode_parts
  decode_request f body profile =
      if not (
        has_keys f (
          text "headers"
          ∷ text "id"
          ∷ text "insecure"
          ∷ text "kind"
          ∷ text "method"
          ∷ text "profile"
          ∷ text "timeout"
          ∷ text "url"
          ∷ []))
      then err invalid_request
      else decode_parts (lookup (text "id") f) (lookup (text "method") f) (lookup (text "url") f)
          (lookup (text "headers") f) (lookup (text "timeout") f) (lookup (text "insecure") f)
          (is_text (lookup (text "profile") f) profile) body
