-- ===== src/Tests/Workers.antt =====
-- python/foxreq: a worker and its parent at small inputs.
use foxreq.Prelude.{
  ℕ, zero, ◌≡◌, ◌≢◌, ◌⊎◌, refl, List, [], ◌∷◌, Bool, true, false, Option, none, some, inl, arith, ℤ,
  pos, ltb, ◌||◌, not, if◌then◌else◌,
}
use foxreq.Prelude.Lists
use foxreq.Prelude.Lists.{All, length}
use foxreq.Prelude.Result.{ok, err}
use foxreq.Prelude.Text.{text, ascii}
use foxreq.Prelude.Float.{Float}
use foxreq.Errors.{FoxreqError, Kind, NativeError, worker_error, translate_native_error}
use foxreq.Json.{Json, Items, Fields, fields}
use foxreq.Ipc.{chunk, refused}
use foxreq.Tests.Pipes.{byte_source, byte_source-IsFaithfulSource, pair_sink}
use foxreq.Worker.Request.{Request, request_metadata, metadata_fields, decode_request, headers_json}
use foxreq.Worker.Request.RoundTrip.{decode_request-request_metadata}
use foxreq.Worker.Response.{
  WorkerResponse, response_metadata, response_fields, decode_response, is_version, invalid_response,
}
use foxreq.Worker.Response.RoundTrip.{decode_response-response_metadata}
use foxreq.Worker.Failure.{remote_exception, native_error_metadata}
use foxreq.Worker.Failure.RoundTrip.{remote_exception-native_error_metadata}
use foxreq.Worker.Process.{
  Host, Codec, Config, raises, system, S, exited, exited_unexpectedly, arrives,
}
use foxreq.Worker.Parent.{close, request}
use foxreq.Worker.Parent.Closing.{close_is_final}
use foxreq.Worker.Parent.Losses.{request_WorkerError, Exited}
use foxreq.Worker.Parent.Exited.{HasFailed, request_all, request_all_stuck}
use foxreq.Worker.Child.{Called, Native, ChildState, run}
use foxreq.Worker.Child.Release.{IsReleasing, run-Idle}
use foxreq.Worker.Child.Halts.{run_exits}

abbrev ten_seconds : Float
ten_seconds = 0x4024000000000000

abbrev no_float : ℤ → Option Float
no_float z = none

abbrev get_request : Request
get_request = record {
  method = text "GET";
  url = text "https://a/";
  headers = (text "A", 255 ∷ []) ∷ [];
  body = 1 ∷ [];
  timeout = ten_seconds;
  insecure = false;
}

abbrev get_fields : Fields
get_fields =
    metadata_fields 1 (text "p") (text "GET")
      (Items.cons
        (Json.list (Items.cons (Json.str (text "A")) (Items.cons (Json.str (255 ∷ [])) Items.nil)))
        Items.nil)
      get_request

get_request_metadata : request_metadata 1 (text "p") get_request ≡ some get_fields
unfolding request_metadata headers_json ascii
get_request_metadata = refl

decode_request-request_metadata_example :
    decode_request no_float get_fields (1 ∷ []) (text "p") ≡ ok (1, get_request)
decode_request-request_metadata_example =
    decode_request-request_metadata no_float 1 (text "p") get_request get_fields
      get_request_metadata (omega arith) (λ h. cc) (λ h. cc) ((omega arith, tt), tt) refl refl

abbrev ok_response : WorkerResponse
ok_response = record {
  status = 200;
  reason = text "OK";
  url = text "https://a/";
  version = text "HTTP/1.1";
  headers = [];
  body = 7 ∷ [];
}

ok_response_metadata :
    response_metadata ok_response 1 ≡ some (response_fields 1 Items.nil ok_response)
unfolding response_metadata headers_json
ok_response_metadata = refl

decode_response-response_metadata_example :
    (decode_response (response_fields 1 Items.nil ok_response) (7 ∷ []) 1 ≡ (
      if ltb 200 100 || (ltb 999 200 || not (is_version (text "HTTP/1.1")))
      then err invalid_response
      else ok ok_response))
    × (decode_response (response_fields 1 Items.nil ok_response) (7 ∷ []) 2
        ≡ err (worker_error (text "worker response id is invalid")))
decode_response-response_metadata_example =
    decode_response-response_metadata ok_response 1 2 (response_fields 1 Items.nil ok_response)
      ok_response_metadata (omega arith) tt (λ h. absurd (omega arith))

abbrev native_timeout : NativeError
native_timeout = record { kind = some (text "timeout"); message = none }

remote_exception-native_error_metadata_example :
    remote_exception (native_error_metadata native_timeout (some 3)) ≡ record {
      kind = (translate_native_error native_timeout).kind;
      message = Lists.take 1024 (translate_native_error native_timeout).message;
    }
remote_exception-native_error_metadata_example =
    remote_exception-native_error_metadata native_timeout (some 3)

-- A codec that writes nothing, so that every frame is refused.
abbrev mute : Codec
mute = record { dumps = λ v. none; loads = λ b. none }

-- One process, which has exited with code 3.
abbrev failed_host : Host
failed_host = record {
  State = Unit {0};
  Process = Unit {0};
  validate_runtime = λ w. (ok tt, w);
  spawn = λ w. (some tt, w);
  has_pipes = λ p. true;
  poll = λ p w. (some (pos 3), w);
  terminate = λ p w. (true, w);
  kill = λ p w. (true, w);
  wait = λ p w. (exited (pos 3), w);
  close_input = λ p w. w;
  close_output = λ p w. w;
  write = λ p b w. (refused, w);
  flush = λ p w. (true, w);
  read = λ p n w. (chunk [], w);
  arrival = λ p t w. (arrives, w);
}

abbrev keep_first : Float → Float → Float
keep_first a b = a

abbrev config : Config
config = record { runtime_dir = text "r"; anchors = []; profile_id = text "p" }

abbrev with_process : S failed_host
with_process = record { world = tt; process = some tt; closed = false; next_request_id = 4 }

abbrev without_process : S failed_host
without_process = record { world = tt; process = none; closed = false; next_request_id = 1 }

close_is_final_example :
    let s' = (close failed_host mute keep_first config with_process).1 in
    (s'.closed ≡ true)
    × (((close failed_host mute keep_first config with_process).0 ≡ err system)
        ⊎ (s'.process ≡ none))
    × (close failed_host mute keep_first config s' ≡ (ok tt, s'))
    × (request failed_host mute keep_first config get_request s' ≡ (
      err (
          raises (record {
            kind = Kind.closed_session;
            message = text "isolated Firefox profile worker is closed";
          })),
      s',
    ))
close_is_final_example =
    close_is_final failed_host mute keep_first config with_process get_request refl

abbrev started_badly : FoxreqError
started_badly = worker_error (text "isolated Firefox profile worker exited during startup")

request_fails :
    (request failed_host mute keep_first config get_request without_process).0
    ≡ err (raises started_badly)
unfolding request
request_fails = refl

request_WorkerError_example :
    ((request failed_host mute keep_first config get_request without_process).1.process ≡ none)
    ⊎ Exited failed_host mute keep_first config without_process
request_WorkerError_example =
    request_WorkerError failed_host mute keep_first config get_request without_process started_badly
      refl request_fails refl

three_ne : pos 3 ≢ pos zero
three_ne h = cc

abbrev failed_host-HasFailed : HasFailed failed_host tt (λ w. Unit {0})
failed_host-HasFailed = record {
  polls = λ w h. (pos 3, refl, tt);
  waits = λ w h. (pos 3, refl, three_ne, tt);
  closes_input = λ w h. tt;
  closes_output = λ w h. tt;
}

request_all_stuck_example :
    All
      (λ answer. answer ≡ err exited_unexpectedly)
      (request_all failed_host mute keep_first config
        (get_request ∷ get_request ∷ [])
        with_process).0
    × ((request_all failed_host mute keep_first config
          (get_request ∷ get_request ∷ [])
          with_process).1.process
        ≡ some tt)
request_all_stuck_example =
    request_all_stuck failed_host mute keep_first config tt (λ w. Unit {0}) failed_host-HasFailed
      (get_request ∷ get_request ∷ []) with_process refl refl tt

-- A native library of which one session is open or not, and which refuses every request.
abbrev busy_native : Native
busy_native = record {
  State = Bool;
  create = λ dir anchors profile n. (Called.value tt, true);
  request = λ r n. (Called.refused native_timeout, n);
  close = λ n. (Called.value tt, false);
}

abbrev IsIdle : Bool → Type 0
IsIdle n = n ≡ false

busy_native-IsReleasing : IsReleasing busy_native IsIdle
busy_native-IsReleasing = record {
  not_created = λ dir anchors profile n h. inl refl;
  requests = λ r n h. h;
  closes = λ n. refl;
}

-- Reads every frame as an init frame, and writes nothing.
abbrev init_codec : Codec
init_codec = record {
  dumps = λ v. none;
  loads = λ b. some (
      Json.dict (
        fields (
          (text "kind", Json.str (text "init"))
          ∷ (text "runtime_dir", Json.str (text "r"))
          ∷ (text "profile", Json.str (text "p"))
          ∷ [])));
}

-- An init frame with no anchors.
abbrev fresh_child : ChildState (List ℕ) (List ℕ) Bool
fresh_child = record {
  input = 0 ∷ 0 ∷ 0 ∷ 0 ∷ 0 ∷ 0 ∷ 0 ∷ 0 ∷ 0 ∷ 0 ∷ 0 ∷ 0 ∷ 0 ∷ 0 ∷ 0 ∷ 4 ∷ 0 ∷ 0 ∷ 0 ∷ 0 ∷ [];
  output = [];
  native = false;
  held = false;
}

run-Idle_example :
    IsIdle (run byte_source pair_sink busy_native init_codec no_float 20 fresh_child).1.native
run-Idle_example =
    run-Idle byte_source pair_sink busy_native init_codec no_float IsIdle busy_native-IsReleasing 20
      fresh_child refl

run_exits_example :
    (code : ℕ) × ((run byte_source pair_sink busy_native init_codec no_float 20 fresh_child).0
      ≡ some code)
run_exits_example =
    run_exits byte_source pair_sink busy_native init_codec no_float byte_source-IsFaithfulSource 20
      fresh_child (omega arith)
