-- ===== src/Api/Verified.antt =====
-- _api.py: no request goes out unverified that nobody asked for.
use foxreq.Prelude.{
  ℕ, ◌≡◌, ◌≢◌, refl, List, Bool, true, false, Option, none, some, arith, Bool-cases, inl, inr, ap,
  subst,
}
use foxreq.Prelude.Result.{Result, ok, bind-eq-ok}
use foxreq.Prelude.Text.{Text, text, text_eq}
use foxreq.Exec.Rules.{Holds, bind-Holds}
use foxreq.Worker.Request.{Request}
use foxreq.Worker.Process.{Failure, lift_error}
use foxreq.Api.Sendable.{lift_error-eq-ok}
use foxreq.Api.Requests.{Python, Call, NormalizedRequest, normalize_request}
use foxreq.Api.Pem.{read_pem_bundle}
use foxreq.Api.Policy.{
  Environment, VerifyArgument, flag, path, VerifyPolicy, normalize_verify, verified_by,
  resolve_runtime_dir,
}
use foxreq.Api.Settings.{Settings}
use foxreq.Api.Response.{from_native}
use foxreq.Api.Session.{
  Natives, State, native_request, from_result, outside, escaping, ensure_open, http_session_with,
  http_session, keep_http, keep_https, open_https, https_session_with, https_session, same_policy,
  resolve_request_verify, warn_insecure, send_http, send_https, request_profile, check_profile,
  completed, send_normalized, request, Overrides,
}

-- What every native call but an unverified request keeps.
pub record Unbroken (natives : Natives) (Q : natives.World → Type 0) : Type 0 where
  pub new_http : (p : Text) (w : natives.World) → Q w → Q (natives.new_http p w).1
  pub new_worker :
      (d : Text) (a : List (List ℕ)) (p : Text) (w : natives.World)
      → Q w
      → Q (natives.new_worker d a p w).1
  pub request_http :
      (h : natives.Http) (r : Request) (w : natives.World)
      → r.insecure ≡ false
      → Q w
      → Q (natives.request_http h r w).1
  pub request_worker :
      (k : natives.Worker) (r : Request) (w : natives.World)
      → r.insecure ≡ false
      → Q w
      → Q (natives.request_worker k r w).1
  pub warn : (w : natives.World) → Q w → Q (natives.warn w).1

abbrev pub Verifies : VerifyPolicy → Type 0
Verifies p = p.insecure ≡ false

verified_by-Verifies :
    (environment : Environment) (p : Text) (policy : VerifyPolicy)
    → verified_by environment p ≡ ok policy
    → Verifies policy
unfolding verified_by
verified_by-Verifies environment p policy e =
    let (a, q, e') =
      bind-eq-ok (read_pem_bundle environment.der_of (environment.file_at p)) _ policy e in
    let same : record { anchors = a; insecure = false } ≡ policy = cc in subst Verifies same refl

-- Only `verify=False` gives a policy that does not verify.
pub normalize_verify-Verifies :
    (environment : Environment) (v : VerifyArgument) (policy : VerifyPolicy)
    → v ≢ flag false
    → normalize_verify environment v ≡ ok policy
    → Verifies policy
unfolding normalize_verify
normalize_verify-Verifies environment (flag false) policy h e = absurd (h refl)
normalize_verify-Verifies environment (flag true) policy h e =
    let (p, q, e') = bind-eq-ok _ (verified_by environment) policy e in
    verified_by-Verifies environment p policy e'
normalize_verify-Verifies environment (path o) policy h e =
    let (p, q, e') = bind-eq-ok _ (verified_by environment) policy e in
    verified_by-Verifies environment p policy e'

module _ (natives : Natives) (python : Python) (settings : Settings) (Q : natives.World → Type 0)
    (unbroken : Unbroken natives Q) (verifying : settings.verify ≢ flag false) where
  abbrev pub PairVerifies : natives.Worker × VerifyPolicy → Type 0
  PairVerifies pair = Verifies pair.1

  abbrev pub KeptVerifies : Option (natives.Worker × VerifyPolicy) → Type 0
  KeptVerifies none = Unit {0}
  KeptVerifies (some pair) = PairVerifies pair

  -- Nothing unverified has gone out, and the session's own policy verifies.
  abbrev pub Safe : State natives → Type 0
  Safe s = Q s.world × KeptVerifies s.https

  abbrev Any {ℓ} : {A : Type ℓ} → A → Type 0
  Any a = Unit {0}

  outside-Safe {ℓ} :
      {A : Type ℓ} (call : natives.World → Result Failure A × natives.World)
      → ((w : natives.World) → Q w → Q (call w).1)
      → Holds Safe Any (outside natives python settings call)
  outside-Safe call h = record { holds = λ s i. ((h s.world i.0, i.1), λ a e. tt) }

  from_result-Safe {ℓ} :
      {A : Type ℓ} (r : Result Failure A) → Holds Safe Any (from_result natives python settings r)
  from_result-Safe r = record { holds = λ s i. (i, λ a e. tt) }

  http_session-Safe : Holds Safe Any (http_session natives python settings)
  unfolding http_session
  http_session-Safe = record { holds = λ s i. by_case s s.http i }
    where
      by_case :
          (s : State natives) (h : Option natives.Http)
          → Safe s
          → Safe (http_session_with natives python settings h s).1
            × ((a : natives.Http)
                → (http_session_with natives python settings h s).0 ≡ ok a
                → Any a)
      by_case s (some h) i = (i, λ a e. tt)
      by_case s none i =
          (bind-Holds Safe Any Any _ (keep_http natives python settings)
              (outside-Safe
                (escaping natives python settings (natives.new_http settings.impersonate))
                (unbroken.new_http settings.impersonate))
              λ h u. record { holds = λ s i. (i, λ a e. tt) }).holds
            s i

  send_http-Safe : (q : NormalizedRequest) → Holds Safe Any (send_http natives python settings q)
  unfolding send_http native_request
  send_http-Safe q =
      bind-Holds Safe Any Any (http_session natives python settings) _ http_session-Safe λ h u.
        outside-Safe
          (escaping natives python settings (natives.request_http h (native_request q false)))
          λ w k. unbroken.request_http h (native_request q false) w refl k

  open_https-Safe : Holds Safe PairVerifies (open_https natives python settings)
  unfolding open_https
  open_https-Safe =
      bind-Holds Safe Any PairVerifies
        (λ s. (resolve_runtime_dir (natives.environment s.world) settings.runtime_dir, s)) _
        (record { holds = λ s i. (i, λ a e. tt) })
        λ dir u.
          bind-Holds Safe Verifies PairVerifies
            (λ s. (lift_error (normalize_verify (natives.environment s.world) settings.verify), s))
            _ (record { holds = λ s i. (i, λ p e. policy_of s p e) })
            λ policy verifies.
              bind-Holds Safe Any PairVerifies
                (outside natives python settings
                  (natives.new_worker dir policy.anchors settings.impersonate))
                (λ k. keep_https natives python settings k policy)
                (outside-Safe (natives.new_worker dir policy.anchors settings.impersonate)
                  (unbroken.new_worker dir policy.anchors settings.impersonate))
                λ k u. record {
                  holds = λ s i. (
                    (i.0, verifies),
                    λ pair e. subst PairVerifies (same k policy pair e) verifies,
                  );
                }
    where
      policy_of :
          (s : State natives) (p : VerifyPolicy)
          → lift_error (normalize_verify (natives.environment s.world) settings.verify) ≡ ok p
          → Verifies p
      policy_of s p e =
          normalize_verify-Verifies (natives.environment s.world) settings.verify p verifying
            (lift_error-eq-ok (normalize_verify (natives.environment s.world) settings.verify) p e)

      same :
          (k : natives.Worker) (policy : VerifyPolicy) (pair : natives.Worker × VerifyPolicy)
          → ◌≡◌ {A = Result Failure (natives.Worker × VerifyPolicy)} (ok (k, policy)) (ok pair)
          → (k, policy) ≡ pair
      same k policy pair e = cc

  https_session-Safe : Holds Safe PairVerifies (https_session natives python settings)
  unfolding https_session
  https_session-Safe = record { holds = λ s i. by_case s s.https i i.1 }
    where
      some_eq :
          (a b : natives.Worker × VerifyPolicy)
          → ◌≡◌ {A = Result Failure (natives.Worker × VerifyPolicy)} (ok a) (ok b)
          → a ≡ b
      some_eq a b e = cc

      by_case :
          (s : State natives) (o : Option (natives.Worker × VerifyPolicy))
          → Safe s
          → KeptVerifies o
          → Safe (https_session_with natives python settings o s).1
            × ((a : natives.Worker × VerifyPolicy)
                → (https_session_with natives python settings o s).0 ≡ ok a
                → PairVerifies a)
      by_case s none i k = open_https-Safe.holds s i
      by_case s (some pair) i k = (i, λ a e. subst PairVerifies (some_eq pair a e) k)

  same_policy-Verifies :
      (session_policy policy p : VerifyPolicy)
      → Verifies policy
      → same_policy natives python settings session_policy policy ≡ ok p
      → Verifies p
  unfolding same_policy
  same_policy-Verifies session_policy policy p verifies e =
      let same : policy ≡ p = ground arith in subst Verifies same verifies

  resolve-Safe :
      (verify : Option VerifyArgument) (session_policy : VerifyPolicy)
      → verify ≢ some (flag false)
      → Verifies session_policy
      → Holds Safe Verifies (resolve_request_verify natives python settings verify session_policy)
  unfolding resolve_request_verify
  resolve-Safe none session_policy asked verifies = record {
    holds = λ s i. (i, λ p e. subst Verifies (ok_eq session_policy p e) verifies);
  }
    where
      ok_eq : (a b : VerifyPolicy) → ◌≡◌ {A = Result Failure VerifyPolicy} (ok a) (ok b) → a ≡ b
      ok_eq a b e = cc
  resolve-Safe (some value) session_policy asked verifies =
      bind-Holds Safe Verifies Verifies
        (λ s. (lift_error (normalize_verify (natives.environment s.world) value), s)) _
        (record {
          holds = λ s i. (
            i,
            λ p e.
                normalize_verify-Verifies (natives.environment s.world) value p
                  (λ x. asked (ap some x))
                  (lift_error-eq-ok (normalize_verify (natives.environment s.world) value) p e),
          );
        })
        λ policy v. record {
          holds = λ s i. (i, λ p e. same_policy-Verifies session_policy policy p v e);
        }

  warn-Safe : (b : Bool) → Holds Safe Any (warn_insecure natives python settings b)
  warn-Safe true = outside-Safe natives.warn unbroken.warn
  warn-Safe false = record { holds = λ s i. (i, λ a e. tt) }

  send_https-Safe :
      (verify : Option VerifyArgument) (q : NormalizedRequest)
      → verify ≢ some (flag false)
      → Holds Safe Any (send_https natives python settings verify q)
  unfolding send_https native_request
  send_https-Safe verify q asked =
      bind-Holds Safe PairVerifies Any (https_session natives python settings) _ https_session-Safe
        λ pair v.
          bind-Holds Safe Verifies Any
            (resolve_request_verify natives python settings verify pair.1) _
            (resolve-Safe verify pair.1 asked v)
            λ policy p.
              bind-Holds Safe Any Any (warn_insecure natives python settings policy.insecure) _
                (warn-Safe policy.insecure)
                λ u u'.
                  outside-Safe
                    (escaping natives python settings
                      (natives.request_worker pair.0 (native_request q policy.insecure)))
                    λ w k. unbroken.request_worker pair.0 (native_request q policy.insecure) w p k

  send_normalized-Safe :
      (verify : Option VerifyArgument) (q : NormalizedRequest)
      → verify ≢ some (flag false)
      → Holds Safe Any (send_normalized natives python settings verify q)
  send_normalized-Safe verify q asked = elim (Bool-cases (text_eq q.scheme (text "http"))) [
    | inl plain ↦ record { holds = λ s i. rw plain ((send_http-Safe q).holds s i) }
    | inr secure ↦ record { holds = λ s i. rw secure ((send_https-Safe verify q asked).holds s i) }
  ]

  ensure_open-Safe : Holds Safe Any (ensure_open natives python settings)
  unfolding ensure_open
  ensure_open-Safe = record {
    holds = λ s i. elim (Bool-cases s.closed) [
      | inl closed ↦ (ground arith, λ a e. tt)
      | inr opened ↦ (ground arith, λ a e. tt)
    ];
  }

  request-Holds :
      (call : Call python) (overrides : Overrides)
      → overrides.verify ≢ some (flag false)
      → Holds Safe Any (request natives python settings call overrides)
  unfolding request
  request-Holds call overrides asked =
      bind-Holds Safe Any Any (ensure_open natives python settings) _ ensure_open-Safe λ u u'.
        bind-Holds Safe Any Any
          (from_result natives python settings
            (request_profile natives python settings overrides.impersonate))
          _ (from_result-Safe (request_profile natives python settings overrides.impersonate))
          λ profile u.
            bind-Holds Safe Any Any
              (from_result natives python settings (check_profile natives python settings profile))
              _ (from_result-Safe (check_profile natives python settings profile))
              λ u u'.
                bind-Holds Safe Any Any
                  (from_result natives python settings (
                    normalize_request python
                      (completed natives python settings call overrides profile)))
                  _
                  (from_result-Safe (
                    normalize_request python
                      (completed natives python settings call overrides profile)))
                  λ q u.
                    bind-Holds Safe Any Any
                      (send_normalized natives python settings overrides.verify q) _
                      (send_normalized-Safe overrides.verify q asked)
                      λ response u. from_result-Safe (from_native response)

  -- A session that was not made with `verify=False` sends no unverified request, and keeps no policy
  -- that would, on a request that is not made with `verify=False` either: a property of the world that
  -- all native calls but an unverified request keep is kept by the request, however it ends.
  pub request-Safe :
      (call : Call python) (overrides : Overrides) (s : State natives)
      → overrides.verify ≢ some (flag false)
      → Safe s
      → Safe (request natives python settings call overrides s).1
  request-Safe call overrides s asked safe = ((request-Holds call overrides asked).holds s safe).0
