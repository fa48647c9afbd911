-- ===== src/Api/Requests.antt =====
-- python/foxreq/_normalize.py: the URL, and the request as a whole. `urllib.parse`, `ipaddress`,
-- the "idna" codec, `json.dumps`, `str.lower` and `str.upper` are the parameter Python.
use foxreq.Prelude.{
  ℕ, List, [], ◌∷◌, ◌++◌, Bool, true, false, Option, none, some, not, ◌||◌, if◌then◌else◌,
}
use foxreq.Prelude.Lists.{any, contains}
use foxreq.Prelude.Result.{Result, ok, err, ◌>>=◌, ◌>>◌}
use foxreq.Prelude.Text.{Text, text, text_eq, decimal, is_empty}
use foxreq.Prelude.Float.{Float}
use foxreq.Errors.{FoxreqError}
use foxreq.Headers.{has_control}
use foxreq.Worker.Request.{Header}
use foxreq.Worker.Process.{Failure, raises, lift_error}
use foxreq.Api.Profiles.{invalid_request, or_error, get_profile}
use foxreq.Api.Arguments.{
  Value, str, HeadersArgument, Seconds, lower_bytes, normalize_method, normalize_headers,
  normalize_body, normalize_timeout, or_system,
}

-- `urlsplit(value)` with the properties that are read of it; none is Python's `None`.
pub record SplitUrl : Type 0 where
  pub scheme : Text
  pub path : Text
  pub query : Text
  pub hostname : Option Text
  pub username : Option Text
  pub password : Option Text
  pub port : Option ℕ

-- The standard library and the interpreter. `split_url` is none where `urlsplit` or `port` raises
-- ValueError; `urlencode` and `dumps` are none where they raise one of the exceptions named in the
-- handler; `quote_path` and `quote_query`, which are `quote` with the two `safe` arguments, are none
-- where it raises a UnicodeEncodeError, which is not caught; `idna` is what `.encode("idna").decode("ascii")` gives.
pub record Python : Type 1 where
  pub Params : Type 0
  pub Object : Type 0
  pub lower : Text → Text
  pub upper : Text → Text
  pub split_url : Text → Option SplitUrl
  pub ip_address : Text → Option Text
  pub idna : Text → Option Text
  pub quote_path : Text → Option Text
  pub quote_query : Text → Option Text
  pub urlencode : Params → Option Text
  pub unsplit_url : Text → Text → Text → Text → Text
  pub dumps : Object → Option (List ℕ)
  pub platform : Text

pub record NormalizedRequest : Type 0 where
  pub method : List ℕ
  pub url : Text
  pub scheme : Text
  pub headers : List Header
  pub body : List ℕ
  pub timeout : Float
  pub profile : Text

-- The arguments of `normalize_request`, one field each.
pub record Call (python : Python) : Type 0 where
  pub method : Value
  pub url : Value
  pub params : Option python.Params
  pub headers : HeadersArgument
  pub body : Option Value
  pub json_value : Option python.Object
  pub timeout : Seconds
  pub impersonate : Option Text

abbrev pub is_some {ℓ} : {A : Type ℓ} → Option A → Bool
is_some none = false
is_some (some a) = true

-- Goes on where the test holds.
abbrev pub require : Bool → Text → Result Failure (Unit {0})
require test message = if test then ok tt else err (raises (invalid_request message))

abbrev pub with_port : Option ℕ → Text → Text
with_port none authority = authority
with_port (some port) authority = authority ++ (text ":" ++ decimal port)

abbrev pub only_absolute : FoxreqError
only_absolute = invalid_request (text "only absolute http and https URLs are supported")

unfoldable pub is_web_scheme : Text → Bool
is_web_scheme scheme = text_eq scheme (text "http") || text_eq scheme (text "https")

abbrev pub path_or_root : Text → Text
path_or_root path = if is_empty path then text "/" else path

abbrev pub empty_url : FoxreqError
empty_url = invalid_request (text "url must be a non-empty string")

-- `any(name.lower() == ... for name, _ in headers)`
unfoldable pub has_header : Text → List Header → Bool
has_header folded = any (λ h. text_eq (lower_bytes h.0) folded)

-- The User-Agent comes first where there is none; `encode("ascii")` of it is the same bytes.
unfoldable pub with_user_agent : Text → List Header → List Header
unfolding has_header
with_user_agent agent headers =
    if has_header (text "user-agent") headers then headers else (text "User-Agent", agent) ∷ headers

module _ (python : Python) where
  -- An IPv6 address in brackets, or the name in IDNA.
  unfoldable pub host_text : Text → Result FoxreqError Text
  host_text hostname =
      if contains 58 hostname
      then (do
        address ←
            or_error (python.ip_address hostname) (invalid_request (text "IPv6 host is invalid"))
        ok (text "[" ++ (address ++ text "]")))
      else or_error (python.idna hostname)
          (invalid_request (text "DNS host cannot be converted to IDNA"))

  -- The query with the parameters behind it.
  unfoldable pub with_params : Text → Option python.Params → Result FoxreqError Text
  with_params query none = ok query
  with_params query (some params) = do
    encoded ←
        or_error (python.urlencode params)
          (invalid_request (text "params must be a mapping or pair sequence"))
    ok (
        if is_empty encoded
        then query
        else query ++ ((if is_empty query then [] else text "&") ++ encoded))

  unfoldable pub assemble_url :
      SplitUrl → Text → Text → Option python.Params → Result Failure (Text × Text)
  unfolding host_text with_params
  assemble_url parsed scheme hostname params = do
    require (not (is_some parsed.username || is_some parsed.password))
        (text "url userinfo is not supported")
    host ← lift_error (host_text hostname)
    path ← or_system (python.quote_path (path_or_root parsed.path))
    quoted ← or_system (python.quote_query parsed.query)
    query ← lift_error (with_params quoted params)
    ok (python.unsplit_url scheme (with_port parsed.port host) path query, scheme)

  unfoldable pub with_host :
      SplitUrl → Option python.Params → Option Text → Result Failure (Text × Text)
  unfolding is_web_scheme assemble_url
  with_host parsed params none = err (raises only_absolute)
  with_host parsed params (some hostname) =
      let scheme = python.lower parsed.scheme in
      if is_web_scheme scheme
      then assemble_url parsed scheme hostname params
      else err (raises only_absolute)

  unfoldable pub normalize_url : Value → Option python.Params → Result Failure (Text × Text)
  unfolding with_host
  normalize_url (str []) params = err (raises empty_url)
  normalize_url (str (c ∷ url)) params = do
    require (not (has_control (c ∷ url) || contains 35 (c ∷ url)))
        (text "url contains a forbidden fragment or control character")
    parsed ←
        lift_error (
          or_error (python.split_url (c ∷ url)) (invalid_request (text "url authority is invalid")))
    with_host parsed params parsed.hostname
  normalize_url _ params = err (raises empty_url)

  -- The body with the headers, which a JSON body adds its type to.
  unfoldable pub body_and_headers :
      Option Value → Option python.Object → List Header → Result Failure (List ℕ × List Header)
  unfolding has_header
  body_and_headers none (some json_value) headers = do
    body ← lift_error (
        or_error (python.dumps json_value)
          (invalid_request (text "json value is not serializable")))
    ok (
      body,
      if has_header (text "content-type") headers
          then headers
          else headers ++ ((text "Content-Type", text "application/json") ∷ []),
    )
  body_and_headers (some body) (some json_value) headers =
      err (raises (invalid_request (text "data and json are mutually exclusive")))
  body_and_headers body none headers = normalize_body body >>= λ b. ok (b, headers)

  unfoldable pub normalize_request : Call python → Result Failure NormalizedRequest
  unfolding body_and_headers with_user_agent normalize_url
  normalize_request call = do
    method ← lift_error (normalize_method python.upper call.method)
    url ← normalize_url call.url call.params
    given ← lift_error (normalize_headers call.headers)
    content ← body_and_headers call.body call.json_value given
    profile ← lift_error (get_profile python.platform call.impersonate)
    timeout ← lift_error (normalize_timeout call.timeout)
    ok (record {
      method = method;
      url = url.0;
      scheme = url.1;
      headers = with_user_agent profile.user_agent content.1;
      body = content.0;
      timeout = timeout;
      profile = profile.profile_id;
    })

  unfoldable pub normalize_profile : Option Text → Result FoxreqError Text
  normalize_profile id = get_profile python.platform id >>= λ profile. ok profile.profile_id
