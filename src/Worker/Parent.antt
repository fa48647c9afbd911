-- ===== src/Worker/Parent.antt =====
-- The methods of `ProfileWorkerSession` in _worker_session.py.
pub mod Closing
pub mod Requests
pub mod Losses
pub mod Exited
use foxreq.Prelude.{
  ℕ, zero, suc, ◌+◌, List, [], ◌∷◌, Bool, true, false, Option, none, some, not, ◌&&◌, ◌||◌,
  if◌then◌else◌,
}
use foxreq.Prelude.Result.{Result, ok, err}
use foxreq.Prelude.Text.{text, Text}
use foxreq.Prelude.Float.{Float}
use foxreq.Errors.{FoxreqError, Kind, worker_error}
use foxreq.Exec.{ExecOf, pure, raise, continue, ◌>>=◌, ◌>>◌}
use foxreq.Json.{Json, Fields, str, fields}
use foxreq.Anchors.{encode_anchors}
use foxreq.Worker.Request.{Request, request_metadata}
use foxreq.Worker.Failure.{remote_exception}
use foxreq.Worker.Response.{WorkerResponse, decode_response}
use foxreq.Worker.Process.{
  Host, Codec, Config, Failure, raises, system, Session, failed, lift_error, exited_unexpectedly,
  is_none, kind_is, is_empty_body, S, in_world, or_abort, or_abort_worker_result, set_process, poll,
  send, read_frame_with_timeout, finish_process, abort_process, start_timeout, close_timeout,
}

-- `plus` is the addition of two floats.
module _ (host : Host) (codec : Codec) (plus : Float → Float → Float) (config : Config) where
  abbrev pub Method {ℓ} : Type ℓ → Type ℓ
  Method = ExecOf Failure (S host)

  -- The answer to the init frame and to the close frame.
  abbrev pub expect : Text → Text → Fields × List ℕ → Method (Unit {0})
  expect kind message (f, body) =
      if is_empty_body body && kind_is f kind
      then pure tt
      else if kind_is f (text "error")
      then raise (raises (remote_exception f))
      else raise (failed message)

  abbrev pub expect_ready : Fields × List ℕ → Method (Unit {0})
  expect_ready = expect (text "ready") (text "isolated Firefox profile worker startup failed")

  abbrev pub expect_closed : Fields × List ℕ → Method (Unit {0})
  expect_closed = expect (text "closed") (text "worker close response is invalid")

  abbrev pub close_metadata : Fields
  close_metadata = fields ((text "kind", str (text "close")) ∷ [])

  abbrev pub init_metadata : Fields
  init_metadata = fields (
      (text "kind", str (text "init"))
      ∷ (text "runtime_dir", str config.runtime_dir)
      ∷ (text "profile", str config.profile_id)
      ∷ [])

  abbrev pub exited_during_startup : Failure
  exited_during_startup = failed (text "isolated Firefox profile worker exited during startup")

  -- `stdin is None or stdout is None or process.poll() is not None`
  unfoldable pub check_started : host.Process → Method (Unit {0})
  check_started p =
      if not (host.has_pipes p)
      then raise exited_during_startup
      else do status ← poll host p; if is_none status then pure tt else raise exited_during_startup

  unfoldable pub startup : host.Process → Method host.Process
  unfolding check_started
  startup p = do
    check_started p
    anchors ← (λ s. (lift_error (encode_anchors config.anchors), s))
    send host codec p init_metadata anchors
    answer ← read_frame_with_timeout host codec p start_timeout
    expect_ready answer
    pure p

  -- `_start` with a process that has exited
  unfoldable pub report_exit : host.Process → Method host.Process
  report_exit p = do
    in_world host (finish_process host p)
    set_process host none
    raise exited_unexpectedly

  unfoldable pub reuse : host.Process → Method host.Process
  unfolding report_exit
  reuse p = do status ← poll host p; if is_none status then pure p else report_exit p

  abbrev pub spawned : Option host.Process → Method host.Process
  spawned none = raise (failed (text "isolated Firefox profile worker could not start"))
  spawned (some p) = do set_process host (some p); or_abort host (startup p)

  unfoldable pub launch : Method host.Process
  unfolding startup
  launch = do
    in_world host (λ w. let (r, w') = host.validate_runtime w in (lift_error r, w'))
    process ← in_world host (λ w. let (p, w') = host.spawn w in (ok p, w'))
    spawned process

  abbrev pub start_with : Option host.Process → Method host.Process
  start_with (some p) = reuse p
  start_with none = launch

  -- `_start`
  unfoldable pub start : Method host.Process
  unfolding reuse launch
  start s = start_with s.process s

  -- `request_id = self._next_request_id` and `self._next_request_id += 1`
  abbrev pub take_id : Method ℕ
  take_id s = (ok s.next_request_id, record s { next_request_id = s.next_request_id + 1 })

  -- 2.0
  abbrev pub grace : Float
  grace = 0x4000000000000000

  abbrev pub exchange_metadata : host.Process → ℕ → Request → Option Fields → Method WorkerResponse
  exchange_metadata p id r none = raise (failed (text "worker request could not be encoded safely"))
  exchange_metadata p id r (some metadata) = do
    send host codec p metadata r.body
    answer ← read_frame_with_timeout host codec p (plus r.timeout grace)
    (λ s. (lift_error (decode_response answer.0 answer.1 id), s))

  -- The body of `try` in `request`, a UnicodeError being the error that it is translated to.
  unfoldable pub exchange : host.Process → ℕ → Request → Method WorkerResponse
  exchange p id r = exchange_metadata p id r (request_metadata id config.profile_id r)

  unfoldable pub request : Request → Method WorkerResponse
  unfolding start exchange
  request r s =
      if s.closed
      then (
        err (
            raises (record {
              kind = Kind.closed_session;
              message = text "isolated Firefox profile worker is closed";
            })),
        s,
      )
      else (do
        process ← start
        id ← take_id
        (λ s. or_abort_worker_result host (exchange process id r s)))
          s

  abbrev pub check_alive : Bool → Method (Unit {0})
  check_alive true = pure tt
  check_alive false = raise exited_unexpectedly

  unfoldable pub close_process : host.Process → Method (Unit {0})
  close_process p = do
    status ← poll host p
    check_alive (is_none status)
    send host codec p close_metadata []
    answer ← read_frame_with_timeout host codec p close_timeout
    expect_closed answer
    in_world host (finish_process host p)
    set_process host none

  abbrev pub close_with : Option host.Process → Method (Unit {0})
  close_with none = pure tt
  close_with (some p) = or_abort host (close_process p)

  unfoldable pub close : Method (Unit {0})
  unfolding close_process
  close s = if s.closed then (ok tt, s) else close_with s.process (record s { closed = true })
