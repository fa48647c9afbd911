-- ===== src/Api/Delivered.antt =====
-- _normalize.py with the two ends of the worker's pipe: a request that is let through arrives.
use foxreq.Prelude.{
  ℕ, ◌<◌, ◌≡◌, ◌≢◌, refl, List, [], ◌∷◌, Bool, true, Option, none, some, Bool-cases, inl, inr, ℤ,
  ◌||◌, not,
}
use foxreq.Prelude.Lists.{All, contains}
use foxreq.Prelude.Result.{ok, Ensures, bind-Ensures, ok-Ensures}
use foxreq.Prelude.Text.{Text, text}
use foxreq.Prelude.Float.{Float, is_finite, is_positive}
use foxreq.Headers.{has_control}
use foxreq.Json.{Fields, str}
use foxreq.Worker.Request.{Header, request_metadata, decode_request, metadata_fields}
use foxreq.Worker.Request.RoundTrip.{HasByteValue, decode_request-request_metadata}
use foxreq.Worker.Process.{lift_error}
use foxreq.Api.Profiles.{or_error, invalid_request, get_profile}
use foxreq.Api.Arguments.{
  Value, str, octets, other, or_system, is_token, normalize_method, normalize_headers,
  normalize_timeout,
}
use foxreq.Api.Sendable.{
  IsHeader, HeadersHaveBytes, normalize_headers-IsHeader, normalize_method-is_token,
  normalize_timeout_lem, is_token-ascii, lift_error-eq-ok,
}
use foxreq.Api.Requests.{
  Python, SplitUrl, require, is_some, host_text, with_params, with_port, path_or_root, with_host,
  assemble_url, is_web_scheme, Call, NormalizedRequest, normalize_url, body_and_headers,
  normalize_request,
}
use foxreq.Api.Session.{native_request}
use foxreq.Api.Added.{
  agent-IsHeader, with_user_agent-IsHeader, headers_json_total, body_and_headers-IsHeader,
}

-- A URL that is put together with a scheme is not empty.
abbrev pub UrlsHaveScheme : Python → Type 0
UrlsHaveScheme python =
    (scheme authority path query : Text)
    → scheme ≢ []
    → python.unsplit_url scheme authority path query ≢ []

web_scheme-ne : (scheme : Text) → is_web_scheme scheme ≡ true → scheme ≢ []
unfolding is_web_scheme
web_scheme-ne [] e same = absurd (cc)
web_scheme-ne (c ∷ cs) e same = cc

abbrev NotEmpty : Text × Text → Type 0
NotEmpty u = u.0 ≢ []

assemble_url-NotEmpty :
    (python : Python) (parsed : SplitUrl) (scheme hostname : Text) (params : Option python.Params)
    → UrlsHaveScheme python
    → scheme ≢ []
    → Ensures NotEmpty (assemble_url python parsed scheme hostname params)
unfolding assemble_url
assemble_url-NotEmpty python parsed scheme hostname params h filled =
    bind-Ensures NotEmpty
      (require (not (is_some parsed.username || is_some parsed.password))
        (text "url userinfo is not supported"))
      _
      λ u e. bind-Ensures NotEmpty (lift_error (host_text python hostname)) _ λ host e.
        bind-Ensures NotEmpty (or_system (python.quote_path (path_or_root parsed.path))) _ λ path e.
          bind-Ensures NotEmpty (or_system (python.quote_query parsed.query)) _ λ quoted e.
            bind-Ensures NotEmpty (lift_error (with_params python quoted params)) _ λ query e.
              ok-Ensures NotEmpty
                (python.unsplit_url scheme (with_port parsed.port host) path query, scheme)
                (h scheme (with_port parsed.port host) path query filled)

with_host-NotEmpty :
    (python : Python) (parsed : SplitUrl) (params : Option python.Params) (hostname : Option Text)
    → UrlsHaveScheme python
    → Ensures NotEmpty (with_host python parsed params hostname)
unfolding with_host
with_host-NotEmpty python parsed params none h = record { ensures = λ u e. absurd (cc) }
with_host-NotEmpty python parsed params (some hostname) h =
    elim (Bool-cases (is_web_scheme (python.lower parsed.scheme))) [
      | inl web ↦ rw web (
          assemble_url-NotEmpty python parsed (python.lower parsed.scheme) hostname params h
            (web_scheme-ne (python.lower parsed.scheme) web))
      | inr not_web ↦ rw not_web (record { ensures = λ u e. absurd (cc) })
    ]

normalize_url-NotEmpty :
    (python : Python) (url : Value) (params : Option python.Params)
    → UrlsHaveScheme python
    → Ensures NotEmpty (normalize_url python url params)
unfolding normalize_url
normalize_url-NotEmpty python (str []) params h = record { ensures = λ u e. absurd (cc) }
normalize_url-NotEmpty python (str (c ∷ cs)) params h =
    bind-Ensures NotEmpty
      (require (not (has_control (c ∷ cs) || contains 35 (c ∷ cs)))
        (text "url contains a forbidden fragment or control character"))
      _
      λ u e.
        bind-Ensures NotEmpty
          (lift_error (
            or_error (python.split_url (c ∷ cs))
              (invalid_request (text "url authority is invalid"))))
          _ λ parsed e. with_host-NotEmpty python parsed params parsed.hostname h
normalize_url-NotEmpty python (octets b) params h = record { ensures = λ u e. absurd (cc) }
normalize_url-NotEmpty python other params h = record { ensures = λ u e. absurd (cc) }

-- A request that the native session can be given.
pub record IsSendable (q : NormalizedRequest) : Type 0 where
  pub method : is_token q.method ≡ true
  pub url : q.url ≢ []
  pub headers : All IsHeader q.headers
  pub finite : is_finite q.timeout ≡ true
  pub positive : is_positive q.timeout ≡ true

normalize_request-IsSendable :
    (python : Python) (call : Call python)
    → HeadersHaveBytes call.headers
    → UrlsHaveScheme python
    → Ensures IsSendable (normalize_request python call)
unfolding normalize_request
normalize_request-IsSendable python call bytes nonempty =
    bind-Ensures IsSendable (lift_error (normalize_method python.upper call.method)) _ λ method em.
      bind-Ensures IsSendable (normalize_url python call.url call.params) _ λ url eu.
        bind-Ensures IsSendable (lift_error (normalize_headers call.headers)) _ λ given eg.
          bind-Ensures IsSendable (body_and_headers python call.body call.json_value given) _
            λ content ec.
              bind-Ensures IsSendable (lift_error (get_profile python.platform call.impersonate)) _
                λ profile ep.
                  bind-Ensures IsSendable (lift_error (normalize_timeout call.timeout)) _
                    λ timeout et.
                      let (finite, positive) =
                        normalize_timeout_lem call.timeout timeout
                          (lift_error-eq-ok (normalize_timeout call.timeout) timeout et) in
                      ok-Ensures IsSendable _ (record {
                        method = normalize_method-is_token python.upper call.method method (
                            lift_error-eq-ok (normalize_method python.upper call.method) method em);
                        url =
                            (normalize_url-NotEmpty python call.url call.params nonempty).ensures
                              url eu;
                        headers =
                            with_user_agent-IsHeader profile.user_agent content.1
                              (agent-IsHeader python.platform call.impersonate profile (
                                lift_error-eq-ok (get_profile python.platform call.impersonate)
                                  profile ep))
                              (body_and_headers-IsHeader python call.body call.json_value given
                                content ec
                                (normalize_headers-IsHeader call.headers given bytes
                                  (lift_error-eq-ok (normalize_headers call.headers) given eg)));
                        finite = finite;
                        positive = positive;
                      })

values_of : (hs : List Header) → All IsHeader hs → All HasByteValue hs
values_of [] good = tt
values_of ((name, value) ∷ hs) good = (good.0.2, values_of hs good.1)

-- The metadata of a frame can be built for a request that is let through, and the worker decodes it,
-- with the body, to the arguments of the call itself. Bytes in the headers are bytes, the library
-- builds no empty URL from a scheme that is not empty, and the identifier is positive. The limits on
-- the size of a frame are not considered.
pub decode_request-normalize_request :
    (python : Python) (call : Call python) (q : NormalizedRequest) (insecure : Bool) (id : ℕ)
    (float_of : ℤ → Option Float)
    → normalize_request python call ≡ ok q
    → HeadersHaveBytes call.headers
    → UrlsHaveScheme python
    → 0 < id
    → (f : Fields) × (request_metadata id q.profile (native_request q insecure) ≡ some f)
      × (decode_request float_of f q.body q.profile ≡ ok (id, native_request q insecure))
unfolding request_metadata native_request
decode_request-normalize_request python call q insecure id float_of e bytes nonempty id_pos =
    let good = (normalize_request-IsSendable python call bytes nonempty).ensures q e in
    let (ascii_method, named) = is_token-ascii q.method good.method in
    let (hs, written) = headers_json_total q.headers good.headers in
    let r = native_request q insecure in
    let f = metadata_fields id q.profile q.method hs r in
    let built : request_metadata id q.profile r ≡ some f = rw (ascii_method, written) refl in
    (
      f,
      built,
      decode_request-request_metadata float_of id q.profile r f built id_pos named good.url
          (values_of q.headers good.headers) good.finite good.positive,
    )
