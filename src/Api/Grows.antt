-- ===== src/Api/Grows.antt =====
-- _api.py: what the steps of a request leave of a session's native sessions.
use foxreq.Prelude.{
  ◌≡◌, refl, ◌∙◌, subst, sym, Bool, true, false, Option, none, some, Bool-cases, inl, inr, arith,
}
use foxreq.Prelude.Result.{Result, ok, err}
use foxreq.Prelude.Text.{Text, text, text_eq}
use foxreq.Exec.{ExecOf, continue, ◌>>=◌}
use foxreq.Exec.Rules.{Keeps, bind-Keeps}
use foxreq.Worker.Process.{Failure, lift_error}
use foxreq.Api.Requests.{Python, Call, NormalizedRequest, normalize_request}
use foxreq.Api.Policy.{VerifyArgument, VerifyPolicy, normalize_verify, resolve_runtime_dir}
use foxreq.Api.Settings.{Settings}
use foxreq.Api.Response.{from_native}
use foxreq.Api.Session.{
  Natives, State, native_request, from_result, outside, escaping, ensure_open, http_session_with,
  http_session, keep_http, keep_https, open_https, https_session_with, https_session,
  resolve_request_verify, warn_insecure, send_http, send_https, request_profile, check_profile,
  completed, send_normalized, request, Overrides,
}

-- What is there stays there.
abbrev pub Extends : {A : Type 0} → Option A → Option A → Type 0
Extends none o = Unit {0}
Extends (some a) o = o ≡ some a

Extends-refl : {A : Type 0} (o : Option A) → Extends o o
Extends-refl none = tt
Extends-refl (some a) = refl

Extends-none : {A : Type 0} (o p : Option A) → o ≡ none → Extends o p
Extends-none none p e = tt
Extends-none (some a) p e = absurd (cc)

Extends-trans : {A : Type 0} (o p q : Option A) → Extends o p → Extends p q → Extends o q
Extends-trans none p q h k = tt
Extends-trans (some a) p q h k = subst (λ o. Extends o q) h k

module _ (natives : Natives) (python : Python) (settings : Settings) where
  -- The steps of a request.
  abbrev pub Grows : State natives → State natives → Type 0
  Grows s t = (t.closed ≡ s.closed) × Extends s.http t.http × Extends s.https t.https

  Grows-refl : (s : State natives) → Grows s s
  Grows-refl s = (refl, Extends-refl s.http, Extends-refl s.https)

  Grows-trans : (s t u : State natives) → Grows s t → Grows t u → Grows s u
  Grows-trans s t u (c, h, k) (c', h', k') =
      (c' ∙ c, Extends-trans s.http t.http u.http h h', Extends-trans s.https t.https u.https k k')

  outside-Grows {ℓ} :
      {A : Type ℓ} (call : natives.World → Result Failure A × natives.World)
      → Keeps Grows (outside natives python settings call)
  outside-Grows call = record { keeps = λ s. Grows-refl s }

  then_Grows {ℓ κ} :
      {A : Type ℓ} {B : Type κ} (m : ExecOf Failure (State natives) A)
      (f : A → ExecOf Failure (State natives) B)
      → Keeps Grows m
      → ((a : A) → Keeps Grows (f a))
      → Keeps Grows (m >>= f)
  then_Grows m f = bind-Keeps m f Grows Grows-trans

  keep_http-Grows :
      (s : State natives) (r : Result Failure natives.Http) (w : natives.World)
      → s.http ≡ none
      → Grows s (continue r (keep_http natives python settings) (record s { world = w })).1
  keep_http-Grows s (ok h) w e = (refl, Extends-none s.http (some h) e, Extends-refl s.https)
  keep_http-Grows s (err f) w e = Grows-refl s

  http_session-Grows : Keeps Grows (http_session natives python settings)
  unfolding http_session
  http_session-Grows = record { keeps = λ s. by_case s s.http refl }
    where
      by_case :
          (s : State natives) (h : Option natives.Http)
          → s.http ≡ h
          → Grows s (http_session_with natives python settings h s).1
      by_case s (some h) e = Grows-refl s
      by_case s none e =
          let call =
            escaping natives python settings (natives.new_http settings.impersonate) s.world in
          keep_http-Grows s call.0 call.1 e

  keep_https-Grows :
      (s : State natives) (r : Result Failure natives.Worker) (policy : VerifyPolicy)
      (w : natives.World)
      → s.https ≡ none
      → Grows s
          (continue r (λ k. keep_https natives python settings k policy) (record s { world = w })).1
  keep_https-Grows s (ok k) policy w e =
      (refl, Extends-refl s.http, Extends-none s.https (some (k, policy)) e)
  keep_https-Grows s (err f) policy w e = Grows-refl s

  open_https-Grows :
      (s : State natives) → s.https ≡ none → Grows s (open_https natives python settings s).1
  unfolding open_https
  open_https-Grows s e =
      with_dir (resolve_runtime_dir (natives.environment s.world) settings.runtime_dir)
    where
      with_policy :
          (dir : Text) (v : Result Failure VerifyPolicy)
          → Grows s
              (continue v
                (λ policy.
                  outside natives python settings
                    (natives.new_worker dir policy.anchors settings.impersonate)
                  >>= λ k. keep_https natives python settings k policy)
                s).1
      with_policy dir (err f) = Grows-refl s
      with_policy dir (ok policy) =
          let call = natives.new_worker dir policy.anchors settings.impersonate s.world in
          keep_https-Grows s call.0 policy call.1 e

      with_dir :
          (d : Result Failure Text)
          → Grows s
              (continue d
                (λ dir t.
                  continue
                    (lift_error (normalize_verify (natives.environment t.world) settings.verify))
                    (λ policy.
                      outside natives python settings
                        (natives.new_worker dir policy.anchors settings.impersonate)
                      >>= λ k. keep_https natives python settings k policy)
                    t)
                s).1
      with_dir (err f) = Grows-refl s
      with_dir (ok dir) =
          with_policy dir
            (lift_error (normalize_verify (natives.environment s.world) settings.verify))

  https_session-Grows : Keeps Grows (https_session natives python settings)
  unfolding https_session
  https_session-Grows = record { keeps = λ s. by_case s s.https refl }
    where
      by_case :
          (s : State natives) (o : Option (natives.Worker × VerifyPolicy))
          → s.https ≡ o
          → Grows s (https_session_with natives python settings o s).1
      by_case s (some pair) e = Grows-refl s
      by_case s none e = open_https-Grows s e

  resolve-Grows :
      (verify : Option VerifyArgument) (p : VerifyPolicy)
      → Keeps Grows (resolve_request_verify natives python settings verify p)
  unfolding resolve_request_verify
  resolve-Grows none p = record { keeps = Grows-refl }
  resolve-Grows (some value) p =
      then_Grows (λ s. (lift_error (normalize_verify (natives.environment s.world) value), s)) _
        (record { keeps = Grows-refl }) λ policy. record { keeps = Grows-refl }

  warn-Grows : (b : Bool) → Keeps Grows (warn_insecure natives python settings b)
  warn-Grows true = outside-Grows natives.warn
  warn-Grows false = record { keeps = Grows-refl }

  send_http-Grows : (q : NormalizedRequest) → Keeps Grows (send_http natives python settings q)
  unfolding send_http
  send_http-Grows q = then_Grows (http_session natives python settings) _ http_session-Grows λ h.
      outside-Grows
        (escaping natives python settings (natives.request_http h (native_request q false)))

  send_https-Grows :
      (verify : Option VerifyArgument) (q : NormalizedRequest)
      → Keeps Grows (send_https natives python settings verify q)
  unfolding send_https
  send_https-Grows verify q =
      then_Grows (https_session natives python settings) _ https_session-Grows λ pair.
        then_Grows (resolve_request_verify natives python settings verify pair.1) _
          (resolve-Grows verify pair.1)
          λ policy.
            then_Grows (warn_insecure natives python settings policy.insecure) _
              (warn-Grows policy.insecure)
              λ u. outside-Grows (
                escaping natives python settings
                  (natives.request_worker pair.0 (native_request q policy.insecure)))

  send_normalized-Grows :
      (verify : Option VerifyArgument) (q : NormalizedRequest)
      → Keeps Grows (send_normalized natives python settings verify q)
  send_normalized-Grows verify q = elim (Bool-cases (text_eq q.scheme (text "http"))) [
    | inl plain ↦ record { keeps = λ s. rw plain ((send_http-Grows q).keeps s) }
    | inr secure ↦ record { keeps = λ s. rw secure ((send_https-Grows verify q).keeps s) }
  ]

  ensure_open-Grows : Keeps Grows (ensure_open natives python settings)
  unfolding ensure_open
  ensure_open-Grows = record {
    keeps = λ s. elim (Bool-cases s.closed) [
      | inl _ ↦
          let same : (ensure_open natives python settings s).1 ≡ s = ground arith in
          subst (Grows s) (sym same) (Grows-refl s)
      | inr _ ↦
          let same : (ensure_open natives python settings s).1 ≡ s = ground arith in
          subst (Grows s) (sym same) (Grows-refl s)
    ];
  }

  from_result-Grows {ℓ} :
      {A : Type ℓ} (r : Result Failure A) → Keeps Grows (from_result natives python settings r)
  from_result-Grows r = record { keeps = Grows-refl }

  pub request-Grows :
      (call : Call python) (overrides : Overrides)
      → Keeps Grows (request natives python settings call overrides)
  unfolding request
  request-Grows call overrides =
      then_Grows (ensure_open natives python settings) _ ensure_open-Grows λ u.
        then_Grows
          (from_result natives python settings
            (request_profile natives python settings overrides.impersonate))
          _ (from_result-Grows (request_profile natives python settings overrides.impersonate))
          λ profile.
            then_Grows
              (from_result natives python settings (check_profile natives python settings profile))
              _ (from_result-Grows (check_profile natives python settings profile))
              λ u.
                then_Grows
                  (from_result natives python settings (
                    normalize_request python
                      (completed natives python settings call overrides profile)))
                  _
                  (from_result-Grows (
                    normalize_request python
                      (completed natives python settings call overrides profile)))
                  λ q.
                    then_Grows (send_normalized natives python settings overrides.verify q) _
                      (send_normalized-Grows overrides.verify q)
                      λ response. from_result-Grows (from_native response)
