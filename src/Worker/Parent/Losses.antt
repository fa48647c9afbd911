-- ===== src/Worker/Parent/Losses.antt =====
-- _worker_session.py, `request`: after a WorkerError the next request starts a new process.
use foxreq.Prelude.{
  ◌≡◌, ◌⊎◌, inl, inr, refl, ap, subst, Bool, true, false, Option, none, some, arith, ℤ,
  if◌then◌else◌,
}
use foxreq.Prelude.Result.{Result, ok, err}
use foxreq.Prelude.Text.{text}
use foxreq.Prelude.Float.{Float}
use foxreq.Errors.{FoxreqError, Kind}
use foxreq.Exec.{ExecOf, pure, ◌>>=◌, continue}
use foxreq.Worker.Request.{Request}
use foxreq.Worker.Response.{WorkerResponse}
use foxreq.Worker.Process.{
  Host, Codec, Config, Failure, raises, system, S, in_world, or_abort, or_abort_result,
  or_abort_worker_result, set_process, poll, abort_process, is_none, is_worker, lift_error,
}
use foxreq.Worker.Parent.{
  reuse, report_exit, startup, spawned, launch, start_with, start, take_id, exchange, request,
}

module _ (host : Host) (codec : Codec) (plus : Float → Float → Float) (config : Config) where
  -- From states with P, a WorkerError ends in a state with Q.
  record Blames {ℓ} {A : Type ℓ} (P Q : S host → Type 0) (m : ExecOf Failure (S host) A)
      : Type ℓ where
    blames :
        (s : S host) (e : FoxreqError)
        → P s
        → (m s).0 ≡ err (raises e)
        → is_worker e.kind ≡ true
        → Q (m s).1

  chain {ℓ κ} :
      {A : Type ℓ} {B : Type κ} (m : ExecOf Failure (S host) A) (f : A → ExecOf Failure (S host) B)
      (P P' Q : S host → Type 0)
      → Blames P Q m
      → ((s : S host) → P s → P' (m s).1)
      → ((a : A) → Blames P' Q (f a))
      → Blames P Q (m >>= f)
  chain {A} m f P P' Q first keeps rest = record {
    blames = λ s e h. after e (m s).0 (m s).1 (first.blames s e h) (keeps s h);
  }
    where
      after :
          (e : FoxreqError) (r : Result Failure A) (t : S host)
          → (r ≡ err (raises e) → is_worker e.kind ≡ true → Q t)
          → P' t
          → (continue r f t).0 ≡ err (raises e)
          → is_worker e.kind ≡ true
          → Q (continue r f t).1
      after e (ok a) t one k p w = (rest a).blames t e k p w
      after e (err (raises x)) t one k p w = one (cc) w
      after e (err system) t one k p w = absurd (cc)

  abbrev NoProcess : S host → Type 0
  NoProcess s = s.process ≡ none

  abbrev AnyState : S host → Type 0
  AnyState s = Unit {0}

  or_abort-Blames {ℓ} :
      {A : Type ℓ} (m : ExecOf Failure (S host) A) (P : S host → Type 0)
      → Blames P NoProcess (or_abort host m)
  or_abort-Blames {A} m P = record { blames = λ s e h. after e (m s).0 (m s).1 }
    where
      after :
          (e : FoxreqError) (r : Result Failure A) (t : S host)
          → (or_abort_result host (r, t)).0 ≡ err (raises e)
          → is_worker e.kind ≡ true
          → NoProcess (or_abort_result host (r, t)).1
      after e (ok a) t p w = absurd (cc)
      after e (err (raises x)) t p w = unfold abort_process in refl
      after e (err system) t p w = absurd (cc)

  or_abort_worker-Blames {ℓ} :
      {A : Type ℓ} (m : ExecOf Failure (S host) A) (P : S host → Type 0)
      → Blames P NoProcess (λ s. or_abort_worker_result host (m s))
  or_abort_worker-Blames {A} m P = record { blames = λ s e h. after e (m s).0 (m s).1 }
    where
      after :
          (e : FoxreqError) (r : Result Failure A) (t : S host)
          → (or_abort_worker_result host (r, t)).0 ≡ err (raises e)
          → is_worker e.kind ≡ true
          → NoProcess (or_abort_worker_result host (r, t)).1
      after e (ok a) t p w = absurd (cc)
      after e (err (raises x)) t p w =
          let worker_too : is_worker x.kind ≡ true = ground arith in
          rw worker_too (unfold abort_process in refl)
      after e (err system) t p w = absurd (cc)

  spawned-Blames :
      (p : Option host.Process) → Blames NoProcess NoProcess (spawned host codec plus config p)
  spawned-Blames none = record { blames = λ s e h p w. h }
  spawned-Blames (some p) =
      chain (set_process host (some p)) _ NoProcess AnyState NoProcess
        (record { blames = λ s e h q w. absurd (cc) }) (λ s h. tt)
        λ u. or_abort-Blames (startup host codec plus config p) AnyState

  launch-Blames : Blames NoProcess NoProcess (launch host codec plus config)
  unfolding launch
  launch-Blames =
      chain
        (in_world host (λ w. (lift_error (host.validate_runtime w).0, (host.validate_runtime w).1)))
        _ NoProcess NoProcess NoProcess (record { blames = λ s e h q w. h }) (λ s h. h)
        λ u.
          chain (in_world host (λ w. (ok (host.spawn w).0, (host.spawn w).1))) _ NoProcess NoProcess
            NoProcess (record { blames = λ s e h q w. h }) (λ s h. h) spawned-Blames

  -- The session's process had exited before.
  abbrev pub Exited : S host → Type 0
  Exited s =
      (p : host.Process) × (code : ℤ) × (s.process ≡ some p) × ((host.poll p s.world).0 ≡ some code)

  abbrev NoneOrExited : S host → S host → Type 0
  NoneOrExited s t = (t.process ≡ none) ⊎ Exited s

  start_with-Blames :
      (s : S host) (q : Option host.Process) (e : FoxreqError)
      → s.process ≡ q
      → (start_with host codec plus config q s).0 ≡ err (raises e)
      → is_worker e.kind ≡ true
      → NoneOrExited s (start_with host codec plus config q s).1
  start_with-Blames s none e same p w = inl (launch-Blames.blames s e same p w)
  start_with-Blames s (some q) e same p w = polled (host.poll q s.world).0 refl (unfold reuse in p)
    where
      polled :
          (status : Option ℤ)
          → (host.poll q s.world).0 ≡ status
          → ((if is_none status then pure q else report_exit host codec plus config q)
              (poll host q s).1).0
            ≡ err (raises e)
          → NoneOrExited s (start_with host codec plus config (some q) s).1
      polled none x y = absurd (cc)
      polled (some code) x y = inr (q, code, same, x)

  start-Blames : (s : S host) → Blames (λ t. t ≡ s) (NoneOrExited s) (start host codec plus config)
  unfolding start
  start-Blames s = record {
    blames = λ t e same p w.
        subst (λ z. NoneOrExited z (start_with host codec plus config t.process t).1) same
          (start_with-Blames t t.process e refl p w);
  }

  weaken {ℓ} :
      {A : Type ℓ} (m : ExecOf Failure (S host) A) (s : S host)
      → Blames AnyState NoProcess m
      → Blames AnyState (NoneOrExited s) m
  weaken m s h = record { blames = λ t e a p w. inl (h.blames t e a p w) }

  -- After a request on an open session that raises a WorkerError, the session holds no process, so that
  -- the next request starts a new one, unless its process had exited already before the request.
  pub request_WorkerError :
      (r : Request) (s : S host) (e : FoxreqError)
      → s.closed ≡ false
      → (request host codec plus config r s).0 ≡ err (raises e)
      → e.kind ≡ Kind.worker
      → ((request host codec plus config r s).1.process ≡ none) ⊎ Exited s
  unfolding request
  request_WorkerError r s e open_before raised worker = at s.closed open_before raised
    where
      shut : Result Failure WorkerResponse
      shut = err (
          raises (record {
            kind = Kind.closed_session;
            message = text "isolated Firefox profile worker is closed";
          }))

      body : ExecOf Failure (S host) WorkerResponse
      body = start host codec plus config >>= λ p. take_id host codec plus config >>= λ id s.
          or_abort_worker_result host (exchange host codec plus config p id r s)

      at :
          (b : Bool)
          → b ≡ false
          → (if b then (shut, s) else body s).0 ≡ err (raises e)
          → NoneOrExited s (if b then (shut, s) else body s).1
      at true h k = absurd (cc)
      at false h k =
          (chain (start host codec plus config) _ (λ t. t ≡ s) AnyState (NoneOrExited s)
              (start-Blames s) (λ t h. tt)
              λ p.
                chain (take_id host codec plus config) _ AnyState AnyState (NoneOrExited s)
                  (record { blames = λ t e h q w. absurd (cc) }) (λ t h. tt)
                  λ id. weaken _ s (
                    or_abort_worker-Blames (exchange host codec plus config p id r)
                      AnyState)).blames
            s e refl k (ap is_worker worker)
