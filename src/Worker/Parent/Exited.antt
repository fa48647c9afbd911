-- ===== src/Worker/Parent/Exited.antt =====
-- _worker_session.py: what becomes of a session whose process exits with a failure.
use foxreq.Prelude.{
  ℕ, zero, suc, ◌≡◌, ◌≢◌, refl, sym, subst, List, [], ◌∷◌, false, some, ℤ, pos, negsuc,
}
use foxreq.Prelude.Lists.{All}
use foxreq.Prelude.Result.{Result, err}
use foxreq.Prelude.Float.{Float}
use foxreq.Worker.Request.{Request}
use foxreq.Worker.Response.{WorkerResponse}
use foxreq.Worker.Process.{
  Host, Codec, Config, Failure, S, exited, exited_unexpectedly, finish_process, finish_result,
}
use foxreq.Worker.Parent.{request}

-- A process that has exited stays so: `poll` and `wait` give a code, `wait` one that is not zero.
pub record HasFailed (host : Host) (p : host.Process) (Gone : host.State → Type 0) : Type 0 where
  pub polls :
      (w : host.State)
      → Gone w
      → (code : ℤ) × ((host.poll p w).0 ≡ some code) × Gone (host.poll p w).1
  pub waits :
      (w : host.State)
      → Gone w
      → (code : ℤ) × ((host.wait p w).0 ≡ exited code) × (code ≢ pos zero) × Gone (host.wait p w).1
  pub closes_input : (w : host.State) → Gone w → Gone (host.close_input p w)
  pub closes_output : (w : host.State) → Gone w → Gone (host.close_output p w)

finish_result_failed :
    (code : ℤ) → code ≢ pos zero → finish_result (exited code) ≡ err exited_unexpectedly
finish_result_failed (pos zero) h = absurd (h refl)
finish_result_failed (pos (suc n)) h = refl
finish_result_failed (negsuc n) h = refl

module _ (host : Host) (codec : Codec) (plus : Float → Float → Float) (config : Config) where
  -- The requests in turn, with what each gave.
  pub request_all : List Request → S host → List (Result Failure WorkerResponse) × S host
  request_all [] s = ([], s)
  request_all (r ∷ rs) s =
      let (answer, t) = request host codec plus config r s in
      let (answers, u) = request_all rs t in (answer ∷ answers, u)

  module _ (p : host.Process) (Gone : host.State → Type 0)
      (has_failed : HasFailed host p Gone) where
    abbrev stuck_at : host.State → ℕ → S host
    stuck_at w n = record { world = w; process = some p; closed = false; next_request_id = n }

    stuck_step :
        (r : Request) (w : host.State) (n : ℕ)
        → Gone w
        → (w' : host.State) × (request host codec plus config r (stuck_at w n)
            ≡ (err exited_unexpectedly, stuck_at w' n))
          × Gone w'
    unfolding request finish_process
    stuck_step r w n gone =
        let (code, e, gone₁) = has_failed.polls w gone in
        let w₂ = host.close_input p (host.poll p w).1 in
        let (code', e', failed, gone₃) =
          has_failed.waits w₂ (has_failed.closes_input (host.poll p w).1 gone₁) in
        (
          host.close_output p (host.wait p w₂).1,
          rw (e, e', finish_result_failed code' failed) refl,
          has_failed.closes_output (host.wait p w₂).1 gone₃,
        )

    stuck-All :
        (rs : List Request) (w : host.State) (n : ℕ)
        → Gone w
        → All (λ answer. answer ≡ err exited_unexpectedly) (request_all rs (stuck_at w n)).0
          × ((request_all rs (stuck_at w n)).1.process ≡ some p)
    unfolding request_all
    stuck-All [] w n gone = (tt, refl)
    stuck-All (r ∷ rs) w n gone =
        let (w', e, gone') = stuck_step r w n gone in
        let (answers, kept) = stuck-All rs w' n gone' in rw e ((refl, answers), kept)

    -- Once the process of an open session has exited with a code that is not zero, every further
    -- request raises the WorkerError "exited unexpectedly", and the session keeps the process: none of
    -- them starts a new one.
    pub request_all_stuck :
        (rs : List Request) (s : S host)
        → s.closed ≡ false
        → s.process ≡ some p
        → Gone s.world
        → All (λ answer. answer ≡ err exited_unexpectedly) (request_all rs s).0
          × ((request_all rs s).1.process ≡ some p)
    request_all_stuck rs s open_before process gone =
        subst
          (λ t.
            All (λ answer. answer ≡ err exited_unexpectedly) (request_all rs t).0
            × ((request_all rs t).1.process ≡ some p))
          (sym (same open_before process)) (stuck-All rs s.world s.next_request_id gone)
      where
        same : s.closed ≡ false → s.process ≡ some p → s ≡ stuck_at s.world s.next_request_id
        same c q i = record {
          world = s.world;
          process = q i;
          closed = c i;
          next_request_id = s.next_request_id;
        }
