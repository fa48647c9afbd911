-- ===== src/Worker/Response/RoundTrip.antt =====
-- What the native session answers is what the parent returns.
use foxreq.Prelude.{ℕ, ◌≡◌, ◌≢◌, refl, sym, some, ==_refl, ==_ne, if◌then◌else◌, not, ◌||◌, ltb}
use foxreq.Prelude.Lists.{All}
use foxreq.Prelude.Bytes.{AllBytes}
use foxreq.Prelude.Result.{ok, err}
use foxreq.Prelude.Options.{bind-eq-some}
use foxreq.Prelude.Text.{text}
use foxreq.Errors.{worker_error}
use foxreq.Json.{Fields, Items}
use foxreq.Worker.Request.{headers_json}
use foxreq.Worker.Request.RoundTrip.{HasByteValue, decode_headers-headers_json, latin_1_bytes}
use foxreq.Worker.Response.{
  WorkerResponse, response_metadata, response_fields, decode_response, is_version, invalid_response,
}

metadata_inv :
    (r : WorkerResponse) (id : ℕ) (f : Fields)
    → response_metadata r id ≡ some f
    → (hs : Items) × (headers_json r.headers ≡ some hs) × (f ≡ response_fields id hs r)
unfolding response_metadata
metadata_inv r id f e = let (hs, p, q) = bind-eq-some (headers_json r.headers) _ f e in (hs, p, cc)

-- A response frame that the worker can build is decoded by the parent, for the same request, to the
-- native response itself where the status is one of 100 to 999 and the version is HTTP/1.0 or
-- HTTP/1.1, and is refused otherwise. For another request it is refused in any case.
pub decode_response-response_metadata :
    (r : WorkerResponse) (id other : ℕ) (f : Fields)
    → response_metadata r id ≡ some f
    → AllBytes r.reason
    → All HasByteValue r.headers
    → other ≢ id
    → (decode_response f r.body id ≡ (
        if ltb r.status 100 || (ltb 999 r.status || not (is_version r.version))
        then err invalid_response
        else ok r))
      × (decode_response f r.body other ≡ err (worker_error (text "worker response id is invalid")))
unfolding decode_response
decode_response-response_metadata r id other f e reason bytes differ =
    let (hs, p, same) = metadata_inv r id f e in
    (
      rw same (
          rw
            (
              ==_refl id,
              latin_1_bytes r.reason reason,
              decode_headers-headers_json r.headers hs bytes p,
            )
            refl),
      rw same (rw (==_ne id other (λ h. differ (sym h))) refl),
    )
