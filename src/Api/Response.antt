-- ===== src/Api/Response.antt =====
-- python/foxreq/_models.py: `Response.from_native`.
use foxreq.Prelude.{ℕ, List, [], ◌∷◌}
use foxreq.Prelude.Result.{Result, ok, err, ◌>>=◌}
use foxreq.Prelude.Text.{Text, ascii}
use foxreq.Errors.{Raised}
use foxreq.Headers.{Headers, Item, pair, new_headers}
use foxreq.Headers
use foxreq.Worker.Request.{Header}
use foxreq.Worker.Response.{WorkerResponse}
use foxreq.Worker.Process.{Failure, system}
use foxreq.Api.Arguments.{or_system}

pub record Response : Type 0 where
  pub status_code : ℕ
  pub reason : Text
  pub url : Text
  pub http_version : Text
  pub headers : Headers
  pub content : List ℕ

-- The names decoded as ASCII, which may raise a UnicodeDecodeError; Latin-1 keeps the bytes.
unfoldable pub decoded_items : List Header → Result Failure (List Item)
decoded_items [] = ok []
decoded_items ((name, value) ∷ headers) = do
  n ← or_system (ascii name)
  items ← decoded_items headers
  ok (pair (Headers.Part.str n) (Headers.Part.str value) ∷ items)

-- A ValueError of `Headers` comes from outside of the package.
abbrev lift_raised {ℓ} : {A : Type ℓ} → Result Raised A → Result Failure A
lift_raised (ok a) = ok a
lift_raised (err e) = err system

unfoldable pub from_native : WorkerResponse → Result Failure Response
unfolding decoded_items
from_native native = do
  items ← decoded_items native.headers
  headers ← lift_raised (new_headers items)
  ok (record {
    status_code = native.status;
    reason = native.reason;
    url = native.url;
    http_version = native.version;
    headers = headers;
    content = native.body;
  })
