-- ===== src/Worker/Child/Halts.antt =====
-- _profile_worker.py, `run`: the loop ends, since every turn reads a frame.
use foxreq.Prelude.{
  ℕ, zero, suc, ◌≤◌, ◌<◌, ◌≡◌, ◌≢◌, refl, sym, subst, ◌∙◌, List, [], ◌∷◌, Bool, true, false, Option,
  none, some, not, ◌||◌, if◌then◌else◌, ℤ, pos, arith,
}
use foxreq.Prelude.Result.{Result, ok, err}
use foxreq.Prelude.Text.{text, Text}
use foxreq.Prelude.Float.{Float}
use foxreq.Errors.{FoxreqError}
use foxreq.Exec.{◌>>=◌, continue}
use foxreq.Json.{Json, Fields, has_keys}
use foxreq.Ipc.{Source, Sink, read_frame}
use foxreq.Ipc.Streams.{IsFaithfulSource}
use foxreq.Ipc.Progress.{left, read_frame-left}
use foxreq.Anchors.{decode_anchors, max_body}
use foxreq.Worker.Request.{Thrown, worker, other, decode_init, decode_request}
use foxreq.Worker.Failure.{native_error_metadata}
use foxreq.Worker.Response.{WorkerResponse, response_metadata}
use foxreq.Worker.Process.{Codec, json_of, max_metadata, kind_is, is_empty_body}
use foxreq.Worker.Child.{
  Called, value, refused, crashed, Native, C, Child, Stop, thrown, out_of_fuel, stopped,
  worker_raised, frame_of, read_result, read, write, set_held, frame, call, write_response, closed,
  answered, crash_metadata, invalid_close, invalid_kind, turn, go_on, loop, created, body, run,
  exit_code,
}

worker_raised-ne {ℓ} : {A : Type ℓ} (r : Result FoxreqError A) → worker_raised r ≢ err out_of_fuel
worker_raised-ne (ok a) e = cc
worker_raised-ne (err x) e = cc

stopped-ne {ℓ} : {A : Type ℓ} (r : Result Thrown A) → stopped r ≢ err out_of_fuel
stopped-ne (ok a) e = cc
stopped-ne (err x) e = cc

module _ (source : Source) (sink : Sink) (native : Native) (codec : Codec)
    (float_of : ℤ → Option Float) where
  abbrev SameInput :
      C source sink native codec float_of → C source sink native codec float_of → Type 0
  SameInput s t = t.input ≡ s.input

  -- A step that is no turn of the loop: it does not run out of rounds and leaves the input alone.
  record Short {ℓ} {A : Type ℓ} (m : Child source sink native codec float_of A) : Type ℓ where
    ends : (s : C source sink native codec float_of) → (m s).0 ≢ err out_of_fuel
    same : (s : C source sink native codec float_of) → (m s).1.input ≡ s.input

  chain {ℓ κ} :
      {A : Type ℓ} {B : Type κ} (m : Child source sink native codec float_of A)
      (f : A → Child source sink native codec float_of B)
      → Short m
      → ((a : A) → Short (f a))
      → Short (m >>= f)
  chain {A} m f h k = record {
    ends = λ s. after_ends (m s).0 (m s).1 (h.ends s);
    same = λ s. after_same s (m s).0 (m s).1 (h.same s);
  }
    where
      after_ends :
          (r : Result Stop A) (t : C source sink native codec float_of)
          → r ≢ err out_of_fuel
          → (continue r f t).0 ≢ err out_of_fuel
      after_ends (ok a) t n = (k a).ends t
      after_ends (err x) t n = λ e. n (cc)

      after_same :
          (s : C source sink native codec float_of) (r : Result Stop A)
          (t : C source sink native codec float_of)
          → t.input ≡ s.input
          → (continue r f t).1.input ≡ s.input
      after_same s (ok a) t e = (k a).same t ∙ e
      after_same s (err x) t e = e

  result-Short {ℓ} : {A : Type ℓ} (r : Result Stop A) → r ≢ err out_of_fuel → Short (λ s. (r, s))
  result-Short r n = record { ends = λ s. n; same = λ s. refl }

  write-Short : (f : Fields) (b : List ℕ) → Short (write source sink native codec float_of f b)
  write-Short f b = record { ends = λ s. worker_raised-ne _; same = λ s. refl }

  call-Short {ℓ} :
      {A : Type ℓ} (f : native.State → Called A × native.State)
      → Short (call source sink native codec float_of f)
  call-Short f = record { ends = λ s e. cc; same = λ s. refl }

  set_held-Short : (b : Bool) → Short (set_held source sink native codec float_of b)
  set_held-Short b = record { ends = λ s e. cc; same = λ s. refl }

  ok-Short {ℓ} : {A : Type ℓ} (a : A) → Short (λ s. (ok a, s))
  ok-Short a = result-Short (ok a) (λ e. cc)

  if-Short {ℓ} :
      {A : Type ℓ} (b : Bool) (m n : Child source sink native codec float_of A)
      → Short m
      → Short n
      → Short (if b then m else n)
  if-Short true m n h k = h
  if-Short false m n h k = k

  closed-Short : (a : Called (Unit {0})) → Short (closed source sink native codec float_of a)
  closed-Short (value u) =
      chain (set_held source sink native codec float_of false) _ (set_held-Short false) λ u.
        chain
          (write source sink native codec float_of
            (frame source sink native codec float_of (text "closed")) [])
          _ (write-Short _ []) λ u. ok-Short (some 0)
  closed-Short (refused e) =
      chain (write source sink native codec float_of (native_error_metadata e none) []) _
        (write-Short _ [])
        λ u.
          chain (set_held source sink native codec float_of false) _ (set_held-Short false)
            λ u. ok-Short (some 1)
  closed-Short crashed = result-Short (err (thrown other)) (λ e. cc)

  write_response-Short :
      (id : ℕ) (r : WorkerResponse) (f : Option Fields)
      → Short (write_response source sink native codec float_of id r f)
  write_response-Short id r none = result-Short _ (λ e. cc)
  write_response-Short id r (some f) = write-Short f r.body

  answered-Short :
      (id : ℕ) (a : Called WorkerResponse) → Short (answered source sink native codec float_of id a)
  answered-Short id (value r) =
      chain (write_response source sink native codec float_of id r (response_metadata r id)) _
        (write_response-Short id r (response_metadata r id)) λ u. ok-Short none
  answered-Short id (refused e) =
      chain (write source sink native codec float_of (native_error_metadata e (some id)) []) _
        (write-Short _ []) λ u. ok-Short none
  answered-Short id crashed =
      chain
        (write source sink native codec float_of
          (crash_metadata source sink native codec float_of id) [])
        _ (write-Short _ []) λ u. ok-Short (some 3)

  turn-Short :
      (profile : Text) (fb : Fields × List ℕ)
      → Short (turn source sink native codec float_of profile fb)
  unfolding turn
  turn-Short profile (f, b) =
      if-Short (kind_is f (text "close")) _ _
        (if-Short (not (is_empty_body b) || not (has_keys f (text "kind" ∷ [])))
          (λ s. (err (thrown (invalid_close source sink native codec float_of)), s)) _
          (result-Short _ (λ e. cc))
          (chain (call source sink native codec float_of native.close) _ (call-Short native.close)
            closed-Short))
        (if-Short (not (kind_is f (text "request")))
          (λ s. (err (thrown (invalid_kind source sink native codec float_of)), s)) _
          (result-Short _ (λ e. cc))
          (chain (λ s. (stopped (decode_request float_of f b profile), s)) _
            (result-Short _ (stopped-ne (decode_request float_of f b profile)))
            λ decoded.
              chain (call source sink native codec float_of (native.request decoded.1)) _
                (call-Short _) λ a. answered-Short decoded.0 a))

  module _ (faithful : IsFaithfulSource source) where
    abbrev bytes_left : C source sink native codec float_of → ℕ
    bytes_left s = left source faithful s.input

    -- A read that succeeds shortens the input.
    read_shortens :
        (s : C source sink native codec float_of) (x : Json × List ℕ)
        → (read_frame (json_of codec) source (pos max_metadata) (pos max_body) s.input).0 ≡ ok x
        → bytes_left (read source sink native codec float_of s).1 < bytes_left s
    read_shortens s x e =
        read_frame-left source faithful (json_of codec) max_metadata max_body s.input x e

    abbrev LoopEnds : ℕ → Text → Type 0
    LoopEnds fuel profile =
        (s : C source sink native codec float_of)
        → bytes_left s < fuel
        → (loop source sink native codec float_of fuel profile s).0 ≢ err out_of_fuel

    after_turn :
        (fuel : ℕ) (profile : Text) (t : C source sink native codec float_of)
        → LoopEnds fuel profile
        → bytes_left t < fuel
        → (r : Result Stop (Option ℕ)) (u : C source sink native codec float_of)
        → r ≢ err out_of_fuel
        → u.input ≡ t.input
        → (continue r
            (go_on source sink native codec float_of
              (loop source sink native codec float_of fuel profile))
            u).0
          ≢ err out_of_fuel
    after_turn fuel profile t ih h (err x) u n e = λ q. n (cc)
    after_turn fuel profile t ih h (ok (some code)) u n e = λ q. cc
    after_turn fuel profile t ih h (ok none) u n e =
        ih u (subst (λ i. left source faithful i < fuel) (sym e) h)

    after_read :
        (fuel : ℕ) (profile : Text) (s : C source sink native codec float_of)
        → LoopEnds fuel profile
        → bytes_left s < suc fuel
        → (r : Result FoxreqError (Json × List ℕ)) (t : C source sink native codec float_of)
        → ((x : Json × List ℕ) → r ≡ ok x → bytes_left t < bytes_left s)
        → (continue
            (read_result r)
            (λ fb.
              turn source sink native codec float_of profile fb
              >>= go_on source sink native codec float_of
                  (loop source sink native codec float_of fuel profile))
            t).0
          ≢ err out_of_fuel
    after_read fuel profile s ih h (err x) t shorter = λ q. cc
    after_read fuel profile s ih h (ok x) t shorter =
        let done = turn-Short profile (frame_of x) in
        after_turn fuel profile t ih (omega (arith, shorter x refl))
          (turn source sink native codec float_of profile (frame_of x) t).0
          (turn source sink native codec float_of profile (frame_of x) t).1 (done.ends t)
          (done.same t)

    loop-ends : (fuel : ℕ) (profile : Text) → LoopEnds fuel profile
    unfolding loop
    loop-ends zero profile s h = absurd (omega arith)
    loop-ends (suc fuel) profile s h =
        after_read fuel profile s (loop-ends fuel profile) h
          (read_frame (json_of codec) source (pos max_metadata) (pos max_body) s.input).0
          (read source sink native codec float_of s).1 (read_shortens s)

    -- With enough rounds for what is left of the input.
    record Near {ℓ} {A : Type ℓ} (fuel : ℕ) (m : Child source sink native codec float_of A)
        : Type ℓ where
      ends :
          (s : C source sink native codec float_of)
          → bytes_left s < fuel
          → (m s).0 ≢ err out_of_fuel

    bind-Near {ℓ κ} :
        {A : Type ℓ} {B : Type κ} (fuel : ℕ) (m : Child source sink native codec float_of A)
        (f : A → Child source sink native codec float_of B)
        → Short m
        → ((a : A) → Near fuel (f a))
        → Near fuel (m >>= f)
    bind-Near {A} fuel m f h k = record {
      ends = λ s b. after s b (m s).0 (m s).1 (h.ends s) (h.same s);
    }
      where
        after :
            (s : C source sink native codec float_of)
            → bytes_left s < fuel
            → (r : Result Stop A) (t : C source sink native codec float_of) → r ≢ err out_of_fuel
            → t.input ≡ s.input
            → (continue r f t).0 ≢ err out_of_fuel
        after s b (err x) t n e = λ q. n (cc)
        after s b (ok a) t n e = (k a).ends t (subst (λ i. left source faithful i < fuel) (sym e) b)

    Short-Near {ℓ} :
        {A : Type ℓ} (fuel : ℕ) (m : Child source sink native codec float_of A)
        → Short m
        → Near fuel m
    Short-Near fuel m h = record { ends = λ s b. h.ends s }

    created-Near :
        (fuel : ℕ) (profile : Text) (a : Called (Unit {0}))
        → Near fuel (created source sink native codec float_of fuel profile a)
    created-Near fuel profile (value u) =
        bind-Near fuel (set_held source sink native codec float_of true) _ (set_held-Short true)
          λ u.
            bind-Near fuel
              (write source sink native codec float_of
                (frame source sink native codec float_of (text "ready")) [])
              (λ u. loop source sink native codec float_of fuel profile) (write-Short _ [])
              λ u. record { ends = loop-ends fuel profile }
    created-Near fuel profile (refused e) = Short-Near fuel _ (
        chain (write source sink native codec float_of (native_error_metadata e none) []) _
          (write-Short _ []) λ u. ok-Short 1)
    created-Near fuel profile crashed =
        Short-Near fuel _ (result-Short (err (thrown other)) (λ e. cc))

    abbrev after_first : ℕ → Fields × List ℕ → Child source sink native codec float_of ℕ
    after_first fuel frame = do
      init ← (λ s. (worker_raised (decode_init frame.0), s))
      anchors ← (λ s. (worker_raised (decode_anchors frame.1), s))
      session ← call source sink native codec float_of (native.create init.0 anchors init.1)
      created source sink native codec float_of fuel init.1 session

    after_first-Near : (fuel : ℕ) (fb : Fields × List ℕ) → Near fuel (after_first fuel fb)
    after_first-Near fuel fb =
        bind-Near fuel (λ s. (worker_raised (decode_init fb.0), s)) _
          (result-Short _ (worker_raised-ne _))
          λ init.
            bind-Near fuel (λ s. (worker_raised (decode_anchors fb.1), s)) _
              (result-Short _ (worker_raised-ne _))
              λ anchors.
                bind-Near fuel
                  (call source sink native codec float_of (native.create init.0 anchors init.1)) _
                  (call-Short _) λ a. created-Near fuel init.1 a

    body-ends :
        (fuel : ℕ) (s : C source sink native codec float_of)
        → bytes_left s ≤ fuel
        → (body source sink native codec float_of fuel s).0 ≢ err out_of_fuel
    unfolding body
    body-ends fuel s h =
        after (read_frame (json_of codec) source (pos max_metadata) (pos max_body) s.input).0
          (read source sink native codec float_of s).1 (read_shortens s)
      where
        after :
            (r : Result FoxreqError (Json × List ℕ)) (t : C source sink native codec float_of)
            → ((x : Json × List ℕ) → r ≡ ok x → bytes_left t < bytes_left s)
            → (continue (read_result r) (after_first fuel) t).0 ≢ err out_of_fuel
        after (err x) t shorter = λ q. cc
        after (ok x) t shorter =
            (after_first-Near fuel (frame_of x)).ends t (omega (arith, shorter x refl))

    exit_code-total :
        (r : Result Stop ℕ) → r ≢ err out_of_fuel → (code : ℕ) × (exit_code r ≡ some code)
    exit_code-total (ok code) n = (code, refl)
    exit_code-total (err (thrown (worker e))) n = (2, refl)
    exit_code-total (err (thrown other)) n = (3, refl)
    exit_code-total (err out_of_fuel) n = absurd (n refl)

    -- On an input that hands its bytes over in order, the worker's run ends with an exit code, whatever
    -- the bytes are and whatever the native session and the output do: as many rounds as there are bytes
    -- are enough.
    pub run_exits :
        (fuel : ℕ) (s : C source sink native codec float_of)
        → bytes_left s ≤ fuel
        → (code : ℕ) × ((run source sink native codec float_of fuel s).0 ≡ some code)
    unfolding run
    run_exits fuel s h =
        exit_code-total (body source sink native codec float_of fuel (record s { held = false })).0
          (body-ends fuel (record s { held = false }) h)
