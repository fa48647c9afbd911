-- ===== src/Worker/Parent/Closing.antt =====
-- _worker_session.py: what a method keeps of the session, and that `close` is final.
use foxreq.Prelude.{
  ℕ, ◌≡◌, refl, ◌∙◌, ◌⊎◌, inl, inr, List, [], Bool, true, false, Option, none, some, arith,
}
use foxreq.Prelude.Result.{Result, ok, err}
use foxreq.Prelude.Text.{text, Text}
use foxreq.Prelude.Float.{Float}
use foxreq.Errors.{Kind}
use foxreq.Exec.{ExecOf}
use foxreq.Exec.Rules.{Keeps, Leaves, bind-Keeps, bind-Leaves}
use foxreq.Json.{Fields}
use foxreq.Worker.Request.{Request}
use foxreq.Worker.Process.{
  Host, Codec, Config, Failure, raises, system, S, in_world, or_abort, or_abort_result, set_process,
  poll, send, read_frame_with_timeout, finish_process, abort_process, is_none, close_timeout,
}
use foxreq.Worker.Parent.{
  expect, expect_closed, close_metadata, check_alive, close_process, close_with, close, request,
}

module _ (host : Host) (codec : Codec) (plus : Float → Float → Float) (config : Config) where
  -- A session is not closed or reopened on the way, and no identifier is taken.
  abbrev pub Steady : S host → S host → Type 0
  Steady s s' = (s'.closed ≡ s.closed) × (s'.next_request_id ≡ s.next_request_id)

  abbrev closing : Fields
  closing = close_metadata host codec plus config

  abbrev NoProcess : S host → Type 0
  NoProcess s = s.process ≡ none

  pub Steady-trans : (s t u : S host) → Steady s t → Steady t u → Steady s u
  Steady-trans s t u (h, h') (k, k') = (k ∙ h, k' ∙ h')

  pub Steady-refl : (s : S host) → Steady s s
  Steady-refl s = (refl, refl)

  pub expect-Steady :
      (kind message : Text) (answer : Fields × List ℕ)
      → Keeps Steady (expect host codec plus config kind message answer)
  expect-Steady kind message (f, body) = record { keeps = λ s. ground arith }

  check_alive-Steady : (b : Bool) → Keeps Steady (check_alive host codec plus config b)
  check_alive-Steady true = record { keeps = Steady-refl }
  check_alive-Steady false = record { keeps = Steady-refl }

  pub send-Steady :
      (p : host.Process) (f : Fields) (body : List ℕ) → Keeps Steady (send host codec p f body)
  send-Steady p f body = record { keeps = Steady-refl }

  pub read-Steady :
      (p : host.Process) (t : Float) → Keeps Steady (read_frame_with_timeout host codec p t)
  unfolding read_frame_with_timeout
  read-Steady p t = record { keeps = Steady-refl }

  pub or_abort-Steady {ℓ} :
      {A : Type ℓ} (m : ExecOf Failure (S host) A) → Keeps Steady m → Keeps Steady (or_abort host m)
  or_abort-Steady {A} m h = record { keeps = λ s. after s (m s).0 (m s).1 (h.keeps s) }
    where
      after :
          (s : S host) (r : Result Failure A) (t : S host)
          → Steady s t
          → Steady s (or_abort_result host (r, t)).1
      after s (ok a) t k = k
      after s (err (raises e)) t k = unfold abort_process in k
      after s (err system) t k = k

  close_process-Steady : (p : host.Process) → Keeps Steady (close_process host codec plus config p)
  unfolding close_process
  close_process-Steady p =
      bind-Keeps (poll host p) _ Steady Steady-trans (record { keeps = Steady-refl })
        λ status.
          bind-Keeps (check_alive host codec plus config (is_none status)) _ Steady Steady-trans
            (check_alive-Steady (is_none status))
            λ u.
              bind-Keeps (send host codec p closing []) _ Steady Steady-trans
                (send-Steady p closing [])
                λ u.
                  bind-Keeps (read_frame_with_timeout host codec p close_timeout) _ Steady
                    Steady-trans (read-Steady p close_timeout)
                    λ answer.
                      bind-Keeps (expect_closed host codec plus config answer) _ Steady Steady-trans
                        (expect-Steady (text "closed") (text "worker close response is invalid")
                          answer)
                        λ u.
                          bind-Keeps (in_world host (finish_process host p))
                            (λ u. set_process host none) Steady Steady-trans
                            (record { keeps = Steady-refl }) λ u. record { keeps = Steady-refl }

  close_process-NoProcess :
      (p : host.Process) → Leaves NoProcess (close_process host codec plus config p)
  unfolding close_process
  close_process-NoProcess p = bind-Leaves (poll host p) _ NoProcess λ status.
      bind-Leaves (check_alive host codec plus config (is_none status)) _ NoProcess λ u.
        bind-Leaves (send host codec p closing []) _ NoProcess λ u.
          bind-Leaves (read_frame_with_timeout host codec p close_timeout) _ NoProcess λ answer.
            bind-Leaves (expect_closed host codec plus config answer) _ NoProcess λ u.
              bind-Leaves (in_world host (finish_process host p)) (λ u. set_process host none)
                NoProcess λ u. record { leaves = λ s a e. refl }

  abbrev LetsGo {ℓ} : {A : Type ℓ} → Result Failure A × S host → Type ℓ
  LetsGo (r, s) = (r ≡ err system) ⊎ (s.process ≡ none)

  pub or_abort-LetsGo {ℓ} :
      {A : Type ℓ} (m : ExecOf Failure (S host) A) (s : S host)
      → Leaves NoProcess m
      → LetsGo (or_abort host m s)
  or_abort-LetsGo {A} m s h = after (m s).0 (m s).1 (h.leaves s)
    where
      after :
          (r : Result Failure A) (t : S host)
          → ((a : A) → r ≡ ok a → t.process ≡ none)
          → LetsGo (or_abort_result host (r, t))
      after (ok a) t k = inr (k a refl)
      after (err (raises e)) t k = inr (unfold abort_process in refl)
      after (err system) t k = inl refl

  close_with_lem :
      (p : Option host.Process) (s : S host)
      → s.process ≡ p
      → ((close_with host codec plus config p s).1.closed ≡ s.closed)
        × LetsGo (close_with host codec plus config p s)
  close_with_lem none s e = (refl, inr e)
  close_with_lem (some p) s e =
      let m = close_process host codec plus config p in
      (
        ((or_abort-Steady m (close_process-Steady p)).keeps s).0,
        or_abort-LetsGo m s (close_process-NoProcess p),
      )

  -- After `close`, however it ends, the session is closed, and it has let go of its process unless an
  -- exception from outside the package was raised; a further `close` does nothing, and a further
  -- request raises ClosedSessionError and does nothing.
  pub close_is_final :
      (s : S host) (r : Request)
      → s.closed ≡ false
      → let s' = (close host codec plus config s).1 in
        (s'.closed ≡ true)
        × (((close host codec plus config s).0 ≡ err system) ⊎ (s'.process ≡ none))
        × (close host codec plus config s' ≡ (ok tt, s'))
        × (request host codec plus config r s' ≡ (
          err (
              raises (record {
                kind = Kind.closed_session;
                message = text "isolated Firefox profile worker is closed";
              })),
          s',
        ))
  unfolding close request
  close_is_final s r open_before =
      let (stays, gone) = close_with_lem s.process (record s { closed = true }) refl in
      rw open_before (stays, gone, rw stays refl, rw stays refl)
