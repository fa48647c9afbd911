-- ===== src/Worker/Child.antt =====
-- `run` of _profile_worker.py: the loop of the child process. The native session is the parameter
-- Native; input and output are any streams.
pub mod Release
pub mod Halts
use foxreq.Prelude.{
  ℕ, zero, suc, List, [], ◌∷◌, Bool, true, false, Option, none, some, not, ◌||◌, if◌then◌else◌, ℤ,
  pos,
}
use foxreq.Prelude.Result.{Result, ok, err}
use foxreq.Prelude.Text.{text, Text}
use foxreq.Prelude.Float.{Float}
use foxreq.Errors.{FoxreqError, NativeError, worker_error}
use foxreq.Exec.{ExecOf, pure, raise, continue, ◌>>=◌, ◌>>◌}
use foxreq.Json.{Json, Fields, str, dict, fields, number, has_keys}
use foxreq.Ipc.{Source, Sink, write_frame, read_frame}
use foxreq.Anchors.{Anchor, decode_anchors, max_body}
use foxreq.Worker.Request.{Request, Thrown, worker, other, decode_init, decode_request}
use foxreq.Worker.Failure.{native_error_metadata}
use foxreq.Worker.Response.{WorkerResponse, response_metadata}
use foxreq.Worker.Process.{Codec, json_of, max_metadata, kind_is, is_empty_body}

-- A call of the native session: its value, a NativeError, or any other exception.
pub data Called {ℓ} (A : Type ℓ) : Type ℓ where
  value : A → Called A
  refused : NativeError → Called A
  crashed : Called A

pub record Native : Type 1 where
  pub State : Type 0
  pub create : Text → List Anchor → Text → State → Called (Unit {0}) × State
  pub request : Request → State → Called WorkerResponse × State
  pub close : State → Called (Unit {0}) × State

-- The streams, the native library, and whether the variable `native` is not None.
pub record ChildState (I O N : Type 0) : Type 0 where
  pub input : I
  pub output : O
  pub native : N
  pub held : Bool

-- The end of the model's run without a value: an exception, or no more rounds of the loop.
pub data Stop : Type 0 where
  thrown : Thrown → Stop
  out_of_fuel : Stop

abbrev pub stopped {ℓ} : {A : Type ℓ} → Result Thrown A → Result Stop A
stopped (ok a) = ok a
stopped (err e) = err (thrown e)

abbrev pub worker_raised {ℓ} : {A : Type ℓ} → Result FoxreqError A → Result Stop A
worker_raised (ok a) = ok a
worker_raised (err e) = err (thrown (worker e))

-- A frame that is read is a dict.
abbrev pub frame_of : Json × List ℕ → Fields × List ℕ
frame_of (dict f, body) = (f, body)
frame_of (_, body) = (fields [], body)

abbrev pub read_result : Result FoxreqError (Json × List ℕ) → Result Stop (Fields × List ℕ)
read_result (ok x) = ok (frame_of x)
read_result (err e) = err (thrown (worker e))

-- What becomes an exit code: a WorkerError is 2, any other exception 3.
abbrev pub exit_code : Result Stop ℕ → Option ℕ
exit_code (ok code) = some code
exit_code (err (thrown (worker e))) = some 2
exit_code (err (thrown other)) = some 3
exit_code (err out_of_fuel) = none

module _ (source : Source) (sink : Sink) (native : Native) (codec : Codec)
    (float_of : ℤ → Option Float) where
  abbrev pub C : Type 0
  C = ChildState source.State sink.State native.State

  abbrev pub Child {ℓ} : Type ℓ → Type ℓ
  Child = ExecOf Stop C

  abbrev pub read : Child (Fields × List ℕ)
  read s =
      let (r, i) = read_frame (json_of codec) source (pos max_metadata) (pos max_body) s.input in
      (read_result r, record s { input = i })

  abbrev pub write : Fields → List ℕ → Child (Unit {0})
  write f body s =
      let (r, o) = write_frame (json_of codec) sink (dict f) body s.output in
      (worker_raised r, record s { output = o })

  abbrev pub raised {ℓ} : {A : Type ℓ} → Text → Child A
  raised message = raise (thrown (worker (worker_error message)))

  abbrev pub set_held : Bool → Child (Unit {0})
  set_held b s = (ok tt, record s { held = b })

  abbrev pub frame : Text → Fields
  frame kind = fields ((text "kind", str kind) ∷ [])

  abbrev pub crash_metadata : ℕ → Fields
  crash_metadata id =
      fields ((text "kind", str (text "worker_error")) ∷ (text "id", number id) ∷ [])

  abbrev pub invalid_close : Thrown
  invalid_close = worker (worker_error (text "worker close frame is invalid"))

  abbrev pub invalid_kind : Thrown
  invalid_kind = worker (worker_error (text "worker request frame kind is invalid"))

  abbrev pub call {ℓ} : {A : Type ℓ} → (native.State → Called A × native.State) → Child (Called A)
  call f s = let (a, n) = f s.native in (ok a, record s { native = n })

  -- `_write_response`
  abbrev pub write_response : ℕ → WorkerResponse → Option Fields → Child (Unit {0})
  write_response id r none = raised (text "native response could not be encoded safely")
  write_response id r (some f) = write f r.body

  abbrev pub closed : Called (Unit {0}) → Child (Option ℕ)
  closed (Called.value u) = do set_held false; write (frame (text "closed")) []; pure (some 0)
  closed (refused e) = do write (native_error_metadata e none) []; set_held false; pure (some 1)
  closed crashed = raise (thrown other)

  unfoldable pub close_frame : Fields → List ℕ → Child (Option ℕ)
  close_frame f body =
      if not (is_empty_body body) || not (has_keys f (text "kind" ∷ []))
      then raise (thrown invalid_close)
      else call native.close >>= closed

  abbrev pub answered : ℕ → Called WorkerResponse → Child (Option ℕ)
  answered id (Called.value r) = do write_response id r (response_metadata r id); pure none
  answered id (refused e) = do write (native_error_metadata e (some id)) []; pure none
  answered id crashed = do write (crash_metadata id) []; pure (some 3)

  unfoldable pub request_frame : Text → Fields → List ℕ → Child (Option ℕ)
  request_frame profile f body = do
    decoded ← (λ s. (stopped (decode_request float_of f body profile), s))
    response ← call (native.request decoded.1)
    answered decoded.0 response

  -- One turn of `while True`; `none` goes on, and a number is returned.
  unfoldable pub turn : Text → Fields × List ℕ → Child (Option ℕ)
  unfolding close_frame request_frame
  turn profile (f, body) =
      if kind_is f (text "close")
      then close_frame f body
      else if not (kind_is f (text "request"))
      then raise (thrown invalid_kind)
      else request_frame profile f body

  abbrev pub go_on : Child ℕ → Option ℕ → Child ℕ
  go_on rest none = rest
  go_on rest (some code) = pure code

  -- Each turn reads a frame, so that as many rounds as there are bytes are enough.
  unfoldable pub loop : ℕ → Text → Child ℕ
  loop zero profile = raise out_of_fuel
  loop (suc fuel) profile = do
    frame ← read
    code ← turn profile frame
    go_on (loop fuel profile) code

  abbrev pub created : ℕ → Text → Called (Unit {0}) → Child ℕ
  created fuel profile (Called.value u) = do
    set_held true
    write (frame (text "ready")) []
    loop fuel profile
  created fuel profile (refused e) = do write (native_error_metadata e none) []; pure 1
  created fuel profile crashed = raise (thrown other)

  unfoldable pub body : ℕ → Child ℕ
  body fuel = do
    frame ← read
    init ← (λ s. (worker_raised (decode_init frame.0), s))
    anchors ← (λ s. (worker_raised (decode_anchors frame.1), s))
    session ← call (native.create init.0 anchors init.1)
    created fuel init.1 session

  -- `finally: if native is not None: native.close()`, exceptions of it being ignored
  abbrev pub finally : C → C
  finally s = record s { native = if s.held then (native.close s.native).1 else s.native }

  unfoldable pub run : ℕ → C → Option ℕ × C
  unfolding body
  run fuel s = let (r, t) = body fuel (record s { held = false }) in (exit_code r, finally t)
