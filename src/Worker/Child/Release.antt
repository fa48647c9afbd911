-- ===== src/Worker/Child/Release.antt =====
-- _profile_worker.py, `run`: the native session is closed on every way out.
use foxreq.Prelude.{
  ℕ, zero, suc, ◌≡◌, ◌≢◌, ◌⊎◌, refl, List, [], ◌∷◌, Bool, true, false, Option, none, some, not,
  ◌||◌, if◌then◌else◌, ℤ, inl, inr,
}
use foxreq.Prelude.Result.{Result, ok, err}
use foxreq.Prelude.Text.{text, Text}
use foxreq.Prelude.Float.{Float}
use foxreq.Exec.{◌>>=◌}
use foxreq.Exec.Rules.{Keeps, bind-Keeps}
use foxreq.Json.{Fields, has_keys}
use foxreq.Ipc.{Source, Sink}
use foxreq.Anchors.{Anchor, decode_anchors}
use foxreq.Worker.Request.{Request, decode_init, decode_request}
use foxreq.Worker.Failure.{native_error_metadata}
use foxreq.Worker.Response.{WorkerResponse, response_metadata}
use foxreq.Worker.Process.{Codec, kind_is, is_empty_body}
use foxreq.Worker.Child.{
  Called, value, refused, crashed, Native, C, Child, Stop, thrown, stopped, worker_raised, read,
  write, set_held, frame, call, write_response, closed, answered, crash_metadata, invalid_close,
  invalid_kind, request_frame, turn, go_on, loop, created, body, finally, run,
}

-- A native library in which no session is open: only a `create` that gives one opens it, and `close`
-- closes it, also where it raises an exception.
pub record IsReleasing (native : Native) (Idle : native.State → Type 0) : Type 0 where
  pub not_created :
      (dir : Text) (anchors : List Anchor) (profile : Text) (n : native.State)
      → Idle n
      → ((native.create dir anchors profile n).0 ≡ value tt)
        ⊎ Idle (native.create dir anchors profile n).1
  pub requests : (r : Request) (n : native.State) → Idle n → Idle (native.request r n).1
  pub closes : (n : native.State) → Idle (native.close n).1

module _ (source : Source) (sink : Sink) (native : Native) (codec : Codec)
    (float_of : ℤ → Option Float) (Idle : native.State → Type 0)
    (releasing : IsReleasing native Idle) where
  abbrev Covered : C source sink native codec float_of → Type 0
  Covered s = s.held ≡ false → Idle s.native

  abbrev Covers : C source sink native codec float_of → C source sink native codec float_of → Type 0
  Covers s t = Covered s → Covered t

  abbrev Safe {ℓ} : {A : Type ℓ} → Child source sink native codec float_of A → Type 0
  Safe = Keeps Covers

  chain {ℓ κ} :
      {A : Type ℓ} {B : Type κ} (m : Child source sink native codec float_of A)
      (f : A → Child source sink native codec float_of B)
      → Safe m
      → ((a : A) → Safe (f a))
      → Safe (m >>= f)
  chain m f = bind-Keeps m f Covers (λ s t u h k. λ c. k (h c))

  result-Safe {ℓ} : {A : Type ℓ} (r : Result Stop A) → Safe (λ s. (r, s))
  result-Safe r = record { keeps = λ s h. h }

  read-Safe : Safe (read source sink native codec float_of)
  read-Safe = record { keeps = λ s h. h }

  write-Safe : (f : Fields) (b : List ℕ) → Safe (write source sink native codec float_of f b)
  write-Safe f b = record { keeps = λ s h. h }

  if-Safe {ℓ} :
      {A : Type ℓ} (b : Bool) (m n : Child source sink native codec float_of A)
      → Safe m
      → Safe n
      → Safe (if b then m else n)
  if-Safe true m n h k = h
  if-Safe false m n h k = k

  write_response-Safe :
      (id : ℕ) (r : WorkerResponse) (f : Option Fields)
      → Safe (write_response source sink native codec float_of id r f)
  write_response-Safe id r none = result-Safe _
  write_response-Safe id r (some f) = write-Safe f r.body

  -- Handling the answer of `close` leaves the native library alone.
  abbrev StaysIdle :
      C source sink native codec float_of → C source sink native codec float_of → Type 0
  StaysIdle s t = Idle s.native → Idle t.native

  idle_chain {ℓ κ} :
      {A : Type ℓ} {B : Type κ} (m : Child source sink native codec float_of A)
      (f : A → Child source sink native codec float_of B)
      → Keeps StaysIdle m
      → ((a : A) → Keeps StaysIdle (f a))
      → Keeps StaysIdle (m >>= f)
  idle_chain m f = bind-Keeps m f StaysIdle (λ s t u h k. λ c. k (h c))

  idle_result {ℓ} : {A : Type ℓ} (r : Result Stop A) → Keeps StaysIdle (λ s. (r, s))
  idle_result r = record { keeps = λ s h. h }

  closed-StaysIdle :
      (a : Called (Unit {0})) → Keeps StaysIdle (closed source sink native codec float_of a)
  closed-StaysIdle (value u) =
      idle_chain (set_held source sink native codec float_of false) _ (record { keeps = λ s h. h })
        λ u.
          idle_chain
            (write source sink native codec float_of
              (frame source sink native codec float_of (text "closed")) [])
            _ (record { keeps = λ s h. h }) λ u. idle_result (ok (some 0))
  closed-StaysIdle (refused e) =
      idle_chain (write source sink native codec float_of (native_error_metadata e none) []) _
        (record { keeps = λ s h. h })
        λ u.
          idle_chain (set_held source sink native codec float_of false) _
            (record { keeps = λ s h. h }) λ u. idle_result (ok (some 1))
  closed-StaysIdle crashed = record { keeps = λ s h. h }

  closing-Safe : Safe (
      call source sink native codec float_of native.close
      >>= closed source sink native codec float_of)
  closing-Safe = record {
    keeps = λ s h c.
        (closed-StaysIdle (native.close s.native).0).keeps
          (record s { native = (native.close s.native).1 }) (releasing.closes s.native);
  }

  answered-Safe :
      (id : ℕ) (a : Called WorkerResponse) → Safe (answered source sink native codec float_of id a)
  answered-Safe id (value r) =
      chain (write_response source sink native codec float_of id r (response_metadata r id)) _
        (write_response-Safe id r (response_metadata r id)) λ u. result-Safe (ok none)
  answered-Safe id (refused e) =
      chain (write source sink native codec float_of (native_error_metadata e (some id)) []) _
        (write-Safe _ []) λ u. result-Safe (ok none)
  answered-Safe id crashed =
      chain
        (write source sink native codec float_of
          (crash_metadata source sink native codec float_of id) [])
        _ (write-Safe _ []) λ u. result-Safe (ok (some 3))

  request_frame-Safe :
      (profile : Text) (f : Fields) (b : List ℕ)
      → Safe (request_frame source sink native codec float_of profile f b)
  unfolding request_frame
  request_frame-Safe profile f b =
      chain (λ s. (stopped (decode_request float_of f b profile), s)) _ (result-Safe _)
        λ decoded.
          chain (call source sink native codec float_of (native.request decoded.1)) _
            (record { keeps = λ s h c. releasing.requests decoded.1 s.native (h c) })
            λ a. answered-Safe decoded.0 a

  turn-Safe :
      (profile : Text) (fb : Fields × List ℕ)
      → Safe (turn source sink native codec float_of profile fb)
  unfolding turn
  turn-Safe profile (f, b) =
      if-Safe (kind_is f (text "close")) _ _
        (if-Safe (not (is_empty_body b) || not (has_keys f (text "kind" ∷ [])))
          (λ s. (err (thrown (invalid_close source sink native codec float_of)), s)) _
          (result-Safe _) closing-Safe)
        (if-Safe (not (kind_is f (text "request")))
          (λ s. (err (thrown (invalid_kind source sink native codec float_of)), s)) _
          (result-Safe _) (request_frame-Safe profile f b))

  go_on-Safe :
      (rest : Child source sink native codec float_of ℕ) (code : Option ℕ)
      → Safe rest
      → Safe (go_on source sink native codec float_of rest code)
  go_on-Safe rest none h = h
  go_on-Safe rest (some code) h = result-Safe (ok code)

  loop-Safe :
      (fuel : ℕ) (profile : Text) → Safe (loop source sink native codec float_of fuel profile)
  unfolding loop
  loop-Safe zero profile = result-Safe _
  loop-Safe (suc fuel) profile =
      let rest = loop source sink native codec float_of fuel profile in
      chain (read source sink native codec float_of) _ read-Safe λ fb.
        chain (turn source sink native codec float_of profile fb)
          (go_on source sink native codec float_of rest) (turn-Safe profile fb)
          λ code. go_on-Safe rest code (loop-Safe fuel profile)

  abbrev after_create : ℕ → Text → List Anchor → Text → Child source sink native codec float_of ℕ
  after_create fuel dir anchors profile =
      call source sink native codec float_of (native.create dir anchors profile)
      >>= created source sink native codec float_of fuel profile

  -- With a session, the variable is set before anything can be raised.
  opened-Safe :
      (fuel : ℕ) (profile : Text) (t : C source sink native codec float_of)
      → Covered (created source sink native codec float_of fuel profile (value tt) t).1
  opened-Safe fuel profile t =
      (chain
          (write source sink native codec float_of
            (frame source sink native codec float_of (text "ready")) [])
          _ (write-Safe _ []) λ u. loop-Safe fuel profile).keeps
        (record t { held = true }) (λ h. absurd (cc))

  created-Safe :
      (fuel : ℕ) (profile : Text) (a : Called (Unit {0}))
      → Safe (created source sink native codec float_of fuel profile a)
  created-Safe fuel profile (value u) = record { keeps = λ s h. opened-Safe fuel profile s }
  created-Safe fuel profile (refused e) =
      chain (write source sink native codec float_of (native_error_metadata e none) []) _
        (write-Safe _ []) λ u. result-Safe (ok 1)
  created-Safe fuel profile crashed = result-Safe _

  after_create-Safe :
      (fuel : ℕ) (dir : Text) (anchors : List Anchor) (profile : Text)
      → Safe (after_create fuel dir anchors profile)
  after_create-Safe fuel dir anchors profile = record {
    keeps = λ s h. case_of s h (native.create dir anchors profile s.native).0 refl;
  }
    where
      after : C source sink native codec float_of → C source sink native codec float_of
      after s = record s { native = (native.create dir anchors profile s.native).1 }

      idle_after :
          (s : C source sink native codec float_of)
          → Idle s.native
          → (native.create dir anchors profile s.native).0 ≢ value tt
          → Idle (native.create dir anchors profile s.native).1
      idle_after s i n = elim (releasing.not_created dir anchors profile s.native i) [
        | inl q ↦ absurd (n q)
        | inr j ↦ j
      ]

      case_of :
          (s : C source sink native codec float_of)
          → Covered s
          → (a : Called (Unit {0})) → (native.create dir anchors profile s.native).0 ≡ a
          → Covered
              (created source sink native codec float_of fuel profile a
                (record s { native = (native.create dir anchors profile s.native).1 })).1
      case_of s h (value u) e = opened-Safe fuel profile (after s)
      case_of s h (refused x) e =
          (created-Safe fuel profile (refused x)).keeps (after s)
            (λ c. idle_after s (h c) (λ q. cc))
      case_of s h crashed e =
          (created-Safe fuel profile crashed).keeps (after s) (λ c. idle_after s (h c) (λ q. cc))

  body-Safe : (fuel : ℕ) → Safe (body source sink native codec float_of fuel)
  unfolding body
  body-Safe fuel = chain (read source sink native codec float_of) _ read-Safe λ fb.
      chain (λ s. (worker_raised (decode_init fb.0), s)) _ (result-Safe _)
        λ init.
          chain (λ s. (worker_raised (decode_anchors fb.1), s)) _ (result-Safe _)
            λ anchors. after_create-Safe fuel init.0 anchors init.1

  -- However the worker's run ends, by any exit code on any input, no native session stays open.
  pub run-Idle :
      (fuel : ℕ) (s : C source sink native codec float_of)
      → Idle s.native
      → Idle (run source sink native codec float_of fuel s).1.native
  unfolding run
  run-Idle fuel s idle =
      released (body source sink native codec float_of fuel (record s { held = false })).1
        ((body-Safe fuel).keeps (record s { held = false }) (λ h. idle))
    where
      either :
          (b : Bool) (n m : native.State)
          → Idle n
          → (b ≡ false → Idle m)
          → Idle (if b then n else m)
      either true n m i h = i
      either false n m i h = h refl

      released :
          (t : C source sink native codec float_of)
          → Covered t
          → Idle (finally source sink native codec float_of t).native
      released t h = either t.held (native.close t.native).1 t.native (releasing.closes t.native) h
