-- ===== src/Worker/Parent/Requests.antt =====
-- _worker_session.py, `request`: what a request does to the state.
use foxreq.Prelude.{◌+◌, ◌≡◌, ◌⊎◌, inl, inr, Bool-cases}
use foxreq.Prelude.Result.{Result, ok, err}
use foxreq.Prelude.Float.{Float}
use foxreq.Exec.{ExecOf}
use foxreq.Exec.Rules.{Keeps}
use foxreq.Worker.Request.{Request}
use foxreq.Worker.Response.{WorkerResponse}
use foxreq.Worker.Process.{
  Host, Codec, Config, Failure, raises, system, S, or_abort_worker_result, abort_process, is_worker,
}
use foxreq.Worker.Parent.Closing.{Steady}

module _ (host : Host) (codec : Codec) (plus : Float → Float → Float) (config : Config) where
  abbrev Calm {ℓ} : {A : Type ℓ} → ExecOf Failure (S host) A → Type 0
  Calm = Keeps (Steady host codec plus config)

  pub or_abort_worker-Calm {ℓ} :
      {A : Type ℓ} (m : ExecOf Failure (S host) A)
      → Calm m
      → Calm (λ s. or_abort_worker_result host (m s))
  or_abort_worker-Calm {A} m h = record { keeps = λ s. after s (m s).0 (m s).1 (h.keeps s) }
    where
      after :
          (s : S host) (r : Result Failure A) (t : S host)
          → Steady host codec plus config s t
          → Steady host codec plus config s (or_abort_worker_result host (r, t)).1
      after s (ok a) t k = k
      after s (err (raises e)) t k = elim (Bool-cases (is_worker e.kind)) [
        | inl w ↦ rw w (unfold abort_process in k)
        | inr w ↦ rw w k
      ]
      after s (err system) t k = k

  -- Either one identifier was taken, or none was and the call raised.
  abbrev pub Counted : S host → Result Failure WorkerResponse × S host → Type 0
  Counted s (r, s') =
      (s'.next_request_id ≡ s.next_request_id + 1)
      ⊎ ((s'.next_request_id ≡ s.next_request_id) × (e : Failure) × (r ≡ err e))

  abbrev Fair : S host → Result Failure WorkerResponse × S host → Type 0
  Fair s end = (end.1.closed ≡ s.closed) × Counted s end
