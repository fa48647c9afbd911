-- ===== src/Tests/Sessions.antt =====
-- python/foxreq/_api.py with native sessions that count the unverified requests.
use foxreq.Prelude.{ℕ, ◌+◌, ◌≡◌, ◌≢◌, refl, [], ◌∷◌, true, false, none, some, if◌then◌else◌}
use foxreq.Prelude.Result.{Result, ok}
use foxreq.Prelude.Text.{text}
use foxreq.Worker.Request.{Request}
use foxreq.Worker.Response.{WorkerResponse}
use foxreq.Api.Pem.{FileAnswer}
use foxreq.Api.Policy.{Environment, flag, path, Resolved}
use foxreq.Api.Settings.{Settings}
use foxreq.Api.Session.{Natives, State, Escape, Overrides, fresh, request}
use foxreq.Api.Verified.{Unbroken, Safe, request-Safe}
use foxreq.Api.Lifecycle.{phase, within, Allows, perform, perform-Allows}
use foxreq.Tests.Calls.{python, call, one_second}

abbrev environment : Environment
environment = record {
  certifi_where = some (text "ca.pem");
  file_at = λ p. FileAnswer.bytes [];
  der_of = λ t. none;
  runtime_variable = none;
  resolve = Resolved.resolved;
  is_dir = λ p. true;
}

abbrev answer : WorkerResponse
answer = record {
  status = 200;
  reason = text "OK";
  url = text "https://a.org";
  version = text "HTTP/1.1";
  headers = [];
  body = [];
}

abbrev counted : Request → ℕ → Result Escape WorkerResponse × ℕ
counted r w = (ok answer, w + (if r.insecure then 1 else 0))

-- The world is the number of unverified requests.
abbrev natives : Natives
natives = record {
  World = ℕ;
  Http = Unit {0};
  Worker = Unit {0};
  environment = λ w. environment;
  new_http = λ p w. (ok tt, w);
  new_worker = λ d a p w. (ok tt, w);
  request_http = λ h r w. counted r w;
  request_worker = λ k r w. counted r w;
  close_http = λ h w. (ok tt, w);
  close_worker = λ k w. (ok tt, w);
  warn = λ w. (ok tt, w);
}

abbrev settings : Settings
settings = record {
  runtime_dir = some (some (text "/nss"));
  verify = path (some (text "ca.pem"));
  timeout = one_second;
  impersonate = text "firefox_152";
}

abbrev NoneSent : ℕ → Type 0
NoneSent w = w ≡ 0

natives-Unbroken : Unbroken natives NoneSent
natives-Unbroken = record {
  new_http = λ p w e. e;
  new_worker = λ d a p w e. e;
  request_http = λ h r w i e. rw (i, e) refl;
  request_worker = λ k r w i e. rw (i, e) refl;
  warn = λ w e. e;
}

abbrev overrides : Overrides
overrides = record { timeout = none; verify = some (flag true); impersonate = none }

abbrev trusted : State natives
trusted = record {
  world = 0;
  closed = false;
  http = none;
  https = some (tt, record { anchors = (7 ∷ []) ∷ []; insecure = false });
}

verifying : settings.verify ≢ flag false
verifying e = cc

request-Safe_example :
    Safe natives python settings NoneSent natives-Unbroken verifying
      (request natives python settings call overrides trusted).1
request-Safe_example =
    request-Safe natives python settings NoneSent natives-Unbroken verifying call overrides trusted
      (λ e. cc) (refl, refl)

perform-Allows_example :
    Allows natives within
      (phase (fresh natives 0))
      (perform natives python settings within call overrides (fresh natives 0)).0
      (phase (perform natives python settings within call overrides (fresh natives 0)).1)
perform-Allows_example =
    perform-Allows natives python settings within call overrides (fresh natives 0)
