-- ===== src/Api/Lifecycle.antt =====
-- _api.py: the life of a Session as its user sees it, and that the methods refine it.
use foxreq.Prelude.{
  ◌≡◌, refl, ◌∙◌, subst, sym, ap, Bool, true, false, Option, none, some, Bool-cases, inl, inr,
  arith,
}
use foxreq.Prelude.Result.{Result, ok, err}
use foxreq.Worker.Process.{Failure}
use foxreq.Api.Requests.{Python, Call}
use foxreq.Api.Policy.{VerifyPolicy}
use foxreq.Api.Settings.{Settings}
use foxreq.Api.Session.{
  Natives, State, ensure_open, closed_error, request, close, with_session, Overrides,
}
use foxreq.Api.Grows.{Extends, request-Grows}

-- What a user can tell of a session: closed for good, or open with what it has started.
pub data Phase (natives : Natives) : Type 0 where
  opened : Option natives.Http → Option (natives.Worker × VerifyPolicy) → Phase natives
  ended : Phase natives

pub data Operation : Type 0 where
  requesting closing within : Operation

-- The specification: which phase an operation may lead to, with the exception that it raises. A request
-- may start a native session where there is none, and never replaces one, nor the policy that it was
-- started with; closing ends the session whatever it raises; and after that a request is refused.
pub data Allows (natives : Natives)
    : Operation → Phase natives → Option Failure → Phase natives → Type 0 where
  requested :
      {h h' : Option natives.Http} {k k' : Option (natives.Worker × VerifyPolicy)}
      (f : Option Failure)
      → Extends h h'
      → Extends k k'
      → Allows natives requesting (opened h k) f (opened h' k')
  refused : Allows natives requesting ended (some closed_error) ended
  finished :
      {h : Option natives.Http} {k : Option (natives.Worker × VerifyPolicy)} (f : Option Failure)
      → Allows natives closing (opened h k) f ended
  finished_again : Allows natives closing ended none ended
  used :
      {h : Option natives.Http} {k : Option (natives.Worker × VerifyPolicy)} (f : Option Failure)
      → Allows natives within (opened h k) f ended
  used_again : Allows natives within ended (some closed_error) ended

abbrev pub raised {ℓ} : {A : Type ℓ} → Result Failure A → Option Failure
raised (ok a) = none
raised (err f) = some f

abbrev pub phase_of :
    {natives : Natives}
    → Bool
    → Option natives.Http
    → Option (natives.Worker × VerifyPolicy)
    → Phase natives
phase_of true h k = ended
phase_of false h k = opened h k

abbrev pub phase : {natives : Natives} → State natives → Phase natives
phase s = phase_of s.closed s.http s.https

module _ (natives : Natives) (python : Python) (settings : Settings) where
  -- What an operation does.
  abbrev pub perform :
      Operation → Call python → Overrides → State natives → Option Failure × State natives
  perform requesting call overrides s =
      let (r, t) = request natives python settings call overrides s in (raised r, t)
  perform closing call overrides s = let (r, t) = close natives python settings s in (raised r, t)
  perform within call overrides s =
      let (r, t) = with_session natives python settings call overrides s in (raised r, t)

  ensure_ended :
      (s : State natives)
      → s.closed ≡ true
      → ensure_open natives python settings s ≡ (err closed_error, s)
  unfolding ensure_open
  ensure_ended s e = ground arith

  request_ended :
      (call : Call python) (overrides : Overrides) (s : State natives)
      → s.closed ≡ true
      → request natives python settings call overrides s ≡ (err closed_error, s)
  unfolding request
  request_ended call overrides s e = rw (ensure_ended s e) refl

  close_ended : (s : State natives) → s.closed ≡ true → close natives python settings s ≡ (ok tt, s)
  unfolding close
  close_ended s e = ground arith

  close-closed : (s : State natives) → (close natives python settings s).1.closed ≡ true
  unfolding close
  close-closed s = ground arith

  with_session-closed :
      (call : Call python) (overrides : Overrides) (s : State natives)
      → (with_session natives python settings call overrides s).1.closed ≡ true
  unfolding with_session
  with_session-closed call overrides s =
      close-closed (request natives python settings call overrides s).1

  phase_ended : (s : State natives) → s.closed ≡ true → phase s ≡ ended
  phase_ended s e = ap (λ b. phase_of b s.http s.https) e

  phase_opened : (s : State natives) → s.closed ≡ false → phase s ≡ opened s.http s.https
  phase_opened s e = ap (λ b. phase_of b s.http s.https) e

  between :
      (o : Operation) (s t : State natives) (f : Option Failure) (p q : Phase natives)
      → phase s ≡ p
      → phase t ≡ q
      → Allows natives o p f q
      → Allows natives o (phase s) f (phase t)
  between o s t f p q e e' h =
      subst (λ p. Allows natives o p f (phase t)) (sym e)
        (subst (λ q. Allows natives o p f q) (sym e') h)

  unchanged :
      (o : Operation) (s : State natives) (f : Option Failure)
      (after : Option Failure × State natives)
      → after ≡ (f, s)
      → s.closed ≡ true
      → Allows natives o ended f ended
      → Allows natives o (phase s) after.0 (phase after.1)
  unchanged o s f after e closed h =
      subst (λ a. Allows natives o (phase s) a.0 (phase a.1)) (sym e)
        (between o s s f ended ended (phase_ended s closed) (phase_ended s closed) h)

  with_session_ended :
      (call : Call python) (overrides : Overrides) (s : State natives)
      → s.closed ≡ true
      → perform within call overrides s ≡ (some closed_error, s)
  unfolding with_session
  with_session_ended call overrides s e =
      rw (request_ended call overrides s e) (rw (close_ended s e) refl)

  -- Every operation of a session does what the specification allows: it leads from the phase that the
  -- user sees to one that the specification has for it, with the exception that it raises.
  pub perform-Allows :
      (o : Operation) (call : Call python) (overrides : Overrides) (s : State natives)
      → Allows natives o
          (phase s)
          (perform o call overrides s).0
          (phase (perform o call overrides s).1)
  perform-Allows o call overrides s = elim (Bool-cases s.closed) [
    | inl e ↦ on_ended o e
    | inr e ↦ on_opened o e
  ]
    where
      on_ended :
          (o : Operation)
          → s.closed ≡ true
          → Allows natives o
              (phase s)
              (perform o call overrides s).0
              (phase (perform o call overrides s).1)
      on_ended requesting e =
          unchanged requesting s (some closed_error) (perform requesting call overrides s)
            (ap (λ p. (raised p.0, p.1)) (request_ended call overrides s e)) e refused
      on_ended closing e =
          unchanged closing s none (perform closing call overrides s)
            (ap (λ p. (raised p.0, p.1)) (close_ended s e)) e finished_again
      on_ended within e =
          unchanged within s (some closed_error) (perform within call overrides s)
            (with_session_ended call overrides s e) e used_again

      on_opened :
          (o : Operation)
          → s.closed ≡ false
          → Allows natives o
              (phase s)
              (perform o call overrides s).0
              (phase (perform o call overrides s).1)
      on_opened requesting e =
          let t = (perform requesting call overrides s).1 in
          let (same, h, k) = (request-Grows natives python settings call overrides).keeps s in
          between requesting s t (perform requesting call overrides s).0 (opened s.http s.https)
            (opened t.http t.https) (phase_opened s e) (phase_opened t (same ∙ e))
            (requested (perform requesting call overrides s).0 h k)
      on_opened closing e =
          let t = (perform closing call overrides s).1 in
          between closing s t (perform closing call overrides s).0 (opened s.http s.https) ended
            (phase_opened s e) (phase_ended t (close-closed s))
            (finished (perform closing call overrides s).0)
      on_opened within e =
          let t = (perform within call overrides s).1 in
          between within s t (perform within call overrides s).0 (opened s.http s.https) ended
            (phase_opened s e) (phase_ended t (with_session-closed call overrides s))
            (used (perform within call overrides s).0)
