-- ===== src/Api/Session.antt =====
-- python/foxreq/_api.py: `Session` and the functions of the module. The native HTTP session, the
-- ProfileWorkerSession and the world around them are the parameter Natives.
use foxreq.Prelude.{List, Bool, true, false, Option, none, some, if◌then◌else◌}
use foxreq.Prelude.Result.{Result, ok, err}
use foxreq.Prelude.Text.{Text, text, text_eq}
use foxreq.Errors.{Kind, NativeError, translate_native_error}
use foxreq.Exec.{ExecOf, pure, ◌>>=◌, ◌>>◌}
use foxreq.Anchors.{Anchor}
use foxreq.Worker.Request.{Request}
use foxreq.Worker.Response.{WorkerResponse}
use foxreq.Worker.Process.{Failure, raises, lift_error}
use foxreq.Api.Arguments.{Seconds, as_float}
use foxreq.Api.Requests.{Python, Call, NormalizedRequest, normalize_request, normalize_profile}
use foxreq.Api.Policy.{
  Environment, VerifyArgument, VerifyPolicy, normalize_verify, resolve_runtime_dir, policy_eq,
}
use foxreq.Api.Settings.{Settings}
use foxreq.Api.Response.{Response, from_native}
use foxreq.Api.Pem.{configuration}

-- What a native call raises: a NativeError, or anything else.
pub data Escape : Type 0 where
  native : NativeError → Escape
  failure : Failure → Escape

pub record Natives : Type 1 where
  pub World : Type 0
  pub Http : Type 0
  pub Worker : Type 0
  pub environment : World → Environment
  pub new_http : Text → World → Result Escape Http × World
  pub new_worker : Text → List Anchor → Text → World → Result Failure Worker × World
  pub request_http : Http → Request → World → Result Escape WorkerResponse × World
  pub request_worker : Worker → Request → World → Result Escape WorkerResponse × World
  pub close_http : Http → World → Result Escape (Unit {0}) × World
  pub close_worker : Worker → World → Result Escape (Unit {0}) × World
  -- `warnings.warn`, which a filter may turn into an exception
  pub warn : World → Result Failure (Unit {0}) × World

-- `_https` and `_https_policy`, which are set together, are one field.
pub record State (natives : Natives) : Type 0 where
  pub world : natives.World
  pub closed : Bool
  pub http : Option natives.Http
  pub https : Option (natives.Worker × VerifyPolicy)

-- The except clause of `request`, `_http_session` and `close`.
abbrev pub translated : Escape → Failure
translated (native e) = raises (translate_native_error e)
translated (failure f) = f

abbrev pub lift_escape {ℓ} : {A : Type ℓ} → Result Escape A → Result Failure A
lift_escape (ok a) = ok a
lift_escape (err e) = err (translated e)

abbrev pub closed_error : Failure
closed_error = raises (record { kind = Kind.closed_session; message = text "Session is closed" })

-- `normalized`'s part of the native call
unfoldable pub native_request : NormalizedRequest → Bool → Request
native_request q insecure = record {
  method = q.method;
  url = q.url;
  headers = q.headers;
  body = q.body;
  timeout = q.timeout;
  insecure = insecure;
}

-- The arguments of `Session.request` but for those of the call: `impersonate` and `verify`, the outer
-- none being Python's `None`.
pub record Overrides : Type 0 where
  pub timeout : Option Seconds
  pub verify : Option VerifyArgument
  pub impersonate : Option (Option Text)

module _ (natives : Natives) (python : Python) (settings : Settings) where
  abbrev pub Method {ℓ} : Type ℓ → Type ℓ
  Method = ExecOf Failure (State natives)

  abbrev pub from_result {ℓ} : {A : Type ℓ} → Result Failure A → Method A
  from_result r s = (r, s)

  -- A call that changes the world only.
  abbrev pub outside {ℓ} :
      {A : Type ℓ} → (natives.World → Result Failure A × natives.World) → Method A
  outside call s = let (r, w) = call s.world in (r, record s { world = w })

  abbrev pub escaping {ℓ} :
      {A : Type ℓ}
      → (natives.World → Result Escape A × natives.World)
      → natives.World
      → Result Failure A × natives.World
  escaping call w = let (r, w') = call w in (lift_escape r, w')

  unfoldable pub ensure_open : Method (Unit {0})
  ensure_open s = if s.closed then (err closed_error, s) else (ok tt, s)

  abbrev pub keep_http : natives.Http → Method natives.Http
  keep_http h s = (ok h, record s { http = some h })

  abbrev pub http_session_with : Option natives.Http → Method natives.Http
  http_session_with (some h) = pure h
  http_session_with none = outside (escaping (natives.new_http settings.impersonate)) >>= keep_http

  -- `_http_session`
  unfoldable pub http_session : Method natives.Http
  http_session s = http_session_with s.http s

  abbrev pub keep_https : natives.Worker → VerifyPolicy → Method (natives.Worker × VerifyPolicy)
  keep_https worker policy s = (ok (worker, policy), record s { https = some (worker, policy) })

  unfoldable pub open_https : Method (natives.Worker × VerifyPolicy)
  open_https = do
    runtime_dir ← (λ s. (resolve_runtime_dir (natives.environment s.world) settings.runtime_dir, s))
    policy ← (λ s. (lift_error (normalize_verify (natives.environment s.world) settings.verify), s))
    worker ← outside (natives.new_worker runtime_dir policy.anchors settings.impersonate)
    keep_https worker policy

  abbrev pub https_session_with :
      Option (natives.Worker × VerifyPolicy) → Method (natives.Worker × VerifyPolicy)
  https_session_with (some pair) = pure pair
  https_session_with none = open_https

  -- `_https_session`
  unfoldable pub https_session : Method (natives.Worker × VerifyPolicy)
  unfolding open_https
  https_session s = https_session_with s.https s

  -- A policy for one request: no verification, or the session's own.
  unfoldable pub same_policy : VerifyPolicy → VerifyPolicy → Result Failure VerifyPolicy
  same_policy session_policy policy =
      if policy.insecure
      then ok policy
      else if policy_eq policy session_policy
      then ok policy
      else err (raises (configuration (text "a different CA bundle requires a separate Session")))

  -- `_resolve_request_verify`
  unfoldable pub resolve_request_verify : Option VerifyArgument → VerifyPolicy → Method VerifyPolicy
  unfolding same_policy
  resolve_request_verify none session_policy = pure session_policy
  resolve_request_verify (some value) session_policy = do
    policy ← (λ s. (lift_error (normalize_verify (natives.environment s.world) value), s))
    from_result (same_policy session_policy policy)

  abbrev pub warn_insecure : Bool → Method (Unit {0})
  warn_insecure true = outside natives.warn
  warn_insecure false = pure tt

  -- The two branches on the scheme, with the call of the native session and its except clause.
  unfoldable pub send_http : NormalizedRequest → Method WorkerResponse
  unfolding http_session
  send_http q = do
    session ← http_session
    outside (escaping (natives.request_http session (native_request q false)))

  unfoldable pub send_https : Option VerifyArgument → NormalizedRequest → Method WorkerResponse
  unfolding https_session resolve_request_verify
  send_https verify q = do
    pair ← https_session
    request_verify ← resolve_request_verify verify pair.1
    warn_insecure request_verify.insecure
    outside (escaping (natives.request_worker pair.0 (native_request q request_verify.insecure)))

  abbrev pub or_session_timeout : Option Seconds → Seconds
  or_session_timeout none = as_float (some settings.timeout)
  or_session_timeout (some t) = t

  abbrev pub request_profile : Option (Option Text) → Result Failure Text
  request_profile none = ok settings.impersonate
  request_profile (some id) = lift_error (normalize_profile python id)

  abbrev pub check_profile : Text → Result Failure (Unit {0})
  check_profile profile =
      if text_eq profile settings.impersonate
      then ok tt
      else err (
          raises
            (configuration (text "a Session cannot change its Firefox profile after construction")))

  -- The call with the timeout and the profile that `normalize_request` is given.
  abbrev pub completed : Call python → Overrides → Text → Call python
  completed call overrides profile = record call {
    timeout = or_session_timeout overrides.timeout;
    impersonate = some profile;
  }

  abbrev pub send_normalized : Option VerifyArgument → NormalizedRequest → Method WorkerResponse
  send_normalized verify q s =
      if text_eq q.scheme (text "http") then send_http q s else send_https verify q s

  -- `Session.request`; `call`'s own timeout and profile are not read.
  unfoldable pub request : Call python → Overrides → Method Response
  unfolding ensure_open send_http send_https
  request call overrides = do
    ensure_open
    profile ← from_result (request_profile overrides.impersonate)
    from_result (check_profile profile)
    normalized ← from_result (normalize_request python (completed call overrides profile))
    response ← send_normalized overrides.verify normalized
    from_result (from_native response)

  abbrev pub close_http_of :
      Option natives.Http → natives.World → Result Escape (Unit {0}) × natives.World
  close_http_of none w = (ok tt, w)
  close_http_of (some h) w = natives.close_http h w

  abbrev pub close_worker_of :
      Option (natives.Worker × VerifyPolicy)
      → natives.World
      → Result Escape (Unit {0}) × natives.World
  close_worker_of none w = (ok tt, w)
  close_worker_of (some (worker, policy)) w = natives.close_worker worker w

  abbrev pub first_failure : NativeError → Result Escape (Unit {0}) → Result Failure (Unit {0})
  first_failure e (ok tt) = err (translated (native e))
  first_failure e (err (native e')) = err (translated (native e))
  first_failure e (err (failure f)) = err f

  -- The loop of `close` from its second round on, with what the first one raised: a NativeError is kept
  -- for the end, the first one of the two; another exception ends the loop.
  unfoldable pub close_second :
      Result Escape (Unit {0})
      → Option (natives.Worker × VerifyPolicy)
      → natives.World
      → Result Failure (Unit {0}) × natives.World
  close_second (err (failure f)) https w = (err f, w)
  close_second (ok tt) https w = let (r, w') = close_worker_of https w in (lift_escape r, w')
  close_second (err (native e)) https w =
      let (r, w') = close_worker_of https w in (first_failure e r, w')

  unfoldable pub close : Method (Unit {0})
  unfolding close_second
  close s =
      if s.closed
      then (ok tt, s)
      else let (first, w) = close_http_of s.http s.world in
        let (r, w') = close_second first s.https w in (r, record s { closed = true; world = w' })

  -- `request` of the module on a new session: `with` closes it however the request ends, and what
  -- `close` raises comes in place of the request's own outcome.
  abbrev pub after_close :
      Result Failure Response → Result Failure (Unit {0}) → Result Failure Response
  after_close outcome (ok tt) = outcome
  after_close outcome (err f) = err f

  unfoldable pub with_session : Call python → Overrides → Method Response
  unfolding request close
  with_session call overrides s =
      let (outcome, t) = request call overrides s in
      let (r, u) = close t in (after_close outcome r, u)

-- What `__init__` leaves in the attributes of a session that it does not raise for.
abbrev pub fresh : (natives : Natives) → natives.World → State natives
fresh natives w = record { world = w; closed = false; http = none; https = none }
