-- ===== src/Worker/Process.antt =====
-- The child process and its pipes as _worker_session.py uses them: `_abort_process`,
-- `_finish_process` and `_read_frame_with_timeout`. The operating system, the child and the validation
-- of the installed runtime are the parameter Host.
use foxreq.Prelude.{
  ℕ, zero, ◌*◌, List, [], ◌∷◌, Bool, true, false, Option, none, some, not, if◌then◌else◌, ℤ, pos,
}
use foxreq.Prelude.Result.{Result, ok, err}
use foxreq.Prelude.Text.{text, Text}
use foxreq.Prelude.Float.{Float, is_positive}
use foxreq.Errors.{FoxreqError, Kind, worker_error}
use foxreq.Exec.{ExecOf}
use foxreq.Json.{Json, Fields, dict, fields, lookup}
use foxreq.Ipc.{JsonCodec, ReadAnswer, WriteAnswer, write_frame, read_frame}
use foxreq.Anchors.{Anchor, max_body}
use foxreq.Worker.Request.{is_text}

-- `process.wait(timeout=...)`: the exit code, or one of the two exceptions that the code names.
pub data Waited : Type 0 where
  exited : ℤ → Waited
  timed_out os_error : Waited

-- The reader thread within the timeout: it may read a frame, has died of another exception, or is late.
pub data Arrival : Type 0 where
  arrives crashed late : Arrival

-- The world outside of the session. `terminate` and `kill` answer whether they raised no OSError;
-- closing a pipe raises nothing that the code lets through.
pub record Host : Type 1 where
  pub State : Type 0
  pub Process : Type 0
  pub validate_runtime : State → Result FoxreqError (Unit {0}) × State
  pub spawn : State → Option Process × State
  pub has_pipes : Process → Bool
  pub poll : Process → State → Option ℤ × State
  pub terminate : Process → State → Bool × State
  pub kill : Process → State → Bool × State
  pub wait : Process → State → Waited × State
  pub close_input : Process → State → State
  pub close_output : Process → State → State
  pub write : Process → List ℕ → State → WriteAnswer × State
  pub flush : Process → State → Bool × State
  pub read : Process → ℕ → State → ReadAnswer × State
  pub arrival : Process → Float → State → Arrival × State

-- `json`, for values of Json.antt.
pub record Codec : Type 0 where
  pub dumps : Json → Option (List ℕ)
  pub loads : List ℕ → Option Json

abbrev pub is_dict : Json → Bool
is_dict (dict f) = true
is_dict _ = false

abbrev pub json_of : Codec → JsonCodec
json_of codec = record { Value = Json; is_dict = is_dict; dumps = codec.dumps; loads = codec.loads }

-- What a session is made for.
pub record Config : Type 0 where
  pub runtime_dir : Text
  pub anchors : List Anchor
  pub profile_id : Text

abbrev pub max_metadata : ℕ
max_metadata = 1024 * 1024

-- 10.0 and 3.0
abbrev pub start_timeout : Float
start_timeout = 0x4024000000000000

abbrev pub close_timeout : Float
close_timeout = 0x4008000000000000

-- An exception of the package, or one from outside that no handler here names.
pub data Failure : Type 0 where
  raises : FoxreqError → Failure
  system : Failure

-- The attributes that change, beside the state of the world.
pub record Session (World Process : Type 0) : Type 0 where
  pub world : World
  pub process : Option Process
  pub closed : Bool
  pub next_request_id : ℕ

abbrev pub failed : Text → Failure
failed message = raises (worker_error message)

abbrev pub lift_error {ℓ} : {A : Type ℓ} → Result FoxreqError A → Result Failure A
lift_error (ok a) = ok a
lift_error (err e) = err (raises e)

abbrev pub exited_unexpectedly : Failure
exited_unexpectedly = failed (text "isolated Firefox profile worker exited unexpectedly")

abbrev pub is_none {ℓ} : {A : Type ℓ} → Option A → Bool
is_none none = true
is_none (some a) = false

abbrev pub is_worker : Kind → Bool
is_worker Kind.worker = true
is_worker _ = false

-- `_finish_process`: what the exit is worth
abbrev pub finish_result : Waited → Result Failure (Unit {0})
finish_result timed_out = err (failed (text "isolated Firefox profile worker did not exit"))
finish_result os_error = err system
finish_result (exited (pos zero)) = ok tt
finish_result (exited _) = err exited_unexpectedly

abbrev pub kind_is : Fields → Text → Bool
kind_is f kind = is_text (lookup (text "kind") f) kind

abbrev pub is_empty_body : List ℕ → Bool
is_empty_body [] = true
is_empty_body (b ∷ bs) = false

module _ (host : Host) where
  abbrev pub S : Type 0
  S = Session host.State host.Process

  abbrev pub in_world {ℓ} :
      {A : Type ℓ} → (host.State → Result Failure A × host.State) → ExecOf Failure S A
  in_world m s = let (r, w) = m s.world in (r, record s { world = w })

  -- The fallbacks after `process.terminate()`, and after a wait that timed out.
  unfoldable pub kill_unless_exited : host.Process → Bool → host.State → host.State
  kill_unless_exited p true w = w
  kill_unless_exited p false w =
      let (status, w') = host.poll p w in if is_none status then (host.kill p w').1 else w'

  unfoldable pub kill_if_late : host.Process → Waited → host.State → host.State
  kill_if_late p timed_out w =
      let (fine, w') = host.kill p w in if fine then (host.wait p w').1 else w'
  kill_if_late p _ w = w

  unfoldable pub stop_running : host.Process → Option ℤ → host.State → host.State
  unfolding kill_unless_exited kill_if_late
  stop_running p (some code) w = w
  stop_running p none w =
      let (fine, w₁) = host.terminate p w in
      let (waited, w₂) = host.wait p (kill_unless_exited p fine w₁) in kill_if_late p waited w₂

  unfoldable pub stop : Option host.Process → host.State → host.State
  unfolding stop_running
  stop none w = w
  stop (some p) w =
      let (status, w') = host.poll p w in
      host.close_output p (host.close_input p (stop_running p status w'))

  unfoldable pub abort_process : S → S
  unfolding stop
  abort_process s = record s { world = stop s.process s.world; process = none }

  unfoldable pub finish_process : host.Process → host.State → Result Failure (Unit {0}) × host.State
  finish_process p w =
      let (waited, w') = host.wait p (host.close_input p w) in
      (finish_result waited, host.close_output p w')

  -- `except WorkerError: abort; raise` followed by `except FoxreqError: abort; raise`
  abbrev pub or_abort_result {ℓ} : {A : Type ℓ} → Result Failure A × S → Result Failure A × S
  or_abort_result (ok a, s) = (ok a, s)
  or_abort_result (err (raises e), s) = (err (raises e), abort_process s)
  or_abort_result (err system, s) = (err system, s)

  abbrev pub or_abort {ℓ} : {A : Type ℓ} → ExecOf Failure S A → ExecOf Failure S A
  or_abort m s = or_abort_result (m s)

  -- `except WorkerError: abort; raise` alone: any other exception of the package leaves the process
  abbrev pub or_abort_worker_result {ℓ} : {A : Type ℓ} → Result Failure A × S → Result Failure A × S
  or_abort_worker_result (ok a, s) = (ok a, s)
  or_abort_worker_result (err (raises e), s) =
      (err (raises e), if is_worker e.kind then abort_process s else s)
  or_abort_worker_result (err system, s) = (err system, s)

  abbrev pub set_process : Option host.Process → ExecOf Failure S (Unit {0})
  set_process p s = (ok tt, record s { process = p })

  abbrev pub poll : host.Process → ExecOf Failure S (Option ℤ)
  poll p = in_world λ w. let (status, w') = host.poll p w in (ok status, w')

  module _ (codec : Codec) where
    abbrev pub send : host.Process → Fields → List ℕ → ExecOf Failure S (Unit {0})
    send p f body = in_world λ w.
        let (r, w') =
          write_frame (json_of codec)
            (record { State = host.State; write = host.write p; flush = host.flush p }) (dict f)
            body w in
        (lift_error r, w')

    -- A frame that is read is a dict.
    abbrev pub frame_result : Result FoxreqError (Json × List ℕ) → Result Failure (Fields × List ℕ)
    frame_result (ok (dict f, body)) = ok (f, body)
    frame_result (ok (_, body)) = ok (fields [], body)
    frame_result (err e) = err (raises e)

    unfoldable pub received :
        host.Process → Arrival → host.State → Result Failure (Fields × List ℕ) × host.State
    received p late w =
        (err (failed (text "isolated Firefox profile worker response timed out")), w)
    received p crashed w =
        (err (failed (text "isolated Firefox profile worker response failed")), w)
    received p arrives w =
        let (r, w') =
          read_frame (json_of codec) (record { State = host.State; read = host.read p })
            (pos max_metadata) (pos max_body) w in
        (frame_result r, w')

    unfoldable pub read_frame_with_timeout :
        host.Process → Float → ExecOf Failure S (Fields × List ℕ)
    unfolding received
    read_frame_with_timeout p timeout = in_world λ w.
        if not (is_positive timeout)
        then (err (failed (text "worker response timeout is invalid")), w)
        else let (a, w') = host.arrival p timeout w in received p a w'
