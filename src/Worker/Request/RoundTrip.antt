-- ===== src/Worker/Request/RoundTrip.antt =====
-- What the parent asks for is what the worker hands to the native session.
use foxreq.Prelude.{
  ℕ, ◌<◌, ◌≡◌, ◌≢◌, refl, List, [], ◌∷◌, true, false, Option, some, ℤ, arith, ltb, lt→ltb, ==_ne,
}
use foxreq.Prelude.Lists.{all, All}
use foxreq.Prelude.Bytes.{AllBytes}
use foxreq.Prelude.Result.{ok}
use foxreq.Prelude.Options.{bind-eq-some}
use foxreq.Prelude.Text.{Text, text_eq_refl, ascii, latin_1, is_empty}
use foxreq.Prelude.Float.{Float, is_finite, is_positive}
use foxreq.Json.{Json, Items, Fields, str, nil, cons, list}
use foxreq.Worker.Request.{
  Header, Request, header_json, headers_json, request_metadata, decode_header, decode_headers,
  decode_request, decode_timeout, metadata_fields,
}

pub latin_1_bytes : (bytes : List ℕ) → AllBytes bytes → latin_1 bytes ≡ some bytes
unfolding latin_1
latin_1_bytes bytes h = rw (all_bytes bytes h) refl
  where
    all_bytes : (b : List ℕ) → AllBytes b → all (λ c. ltb c 256) b ≡ true
    all_bytes [] h = refl
    all_bytes (x ∷ xs) h = rw (lt→ltb x 256 h.0) (all_bytes xs h.1)

pub ascii-eq-some : (t : Text) (b : List ℕ) → ascii t ≡ some b → (ascii t ≡ some t) × (b ≡ t)
unfolding ascii
ascii-eq-some t b e = (ground arith, ground arith)

abbrev pub HasByteValue : Header → Type 0
HasByteValue (name, value) = AllBytes value

header_json_inv :
    (name value : List ℕ) (j : Json)
    → header_json (name, value) ≡ some j
    → (ascii name ≡ some name) × (j ≡ list (cons (str name) (cons (str value) nil)))
unfolding header_json
header_json_inv name value j e =
    let (n, p, q) = bind-eq-some (ascii name) _ j e in
    let (self, same) = ascii-eq-some name n p in (self, ground (arith, rw same at q))

decode_header-header_json :
    (h : Header) (j : Json) → HasByteValue h → header_json h ≡ some j → decode_header j ≡ some h
unfolding decode_header
decode_header-header_json (name, value) j bytes e =
    let (self, written) = header_json_inv name value j e in
    rw (written, self, latin_1_bytes value bytes) refl

pub decode_headers-headers_json :
    (hs : List Header) (js : Items)
    → All HasByteValue hs
    → headers_json hs ≡ some js
    → decode_headers js ≡ some hs
unfolding headers_json decode_headers
decode_headers-headers_json [] js bytes e = let empty : js ≡ nil = cc in rw empty refl
decode_headers-headers_json (h ∷ hs) js bytes e =
    let (j, p, q) = bind-eq-some (header_json h) _ js e in
    let (rest, p', q') = bind-eq-some (headers_json hs) _ js q in
    let written : js ≡ cons j rest = cc in
    rw
      (
        written,
        decode_header-header_json h j bytes.0 p,
        decode_headers-headers_json hs rest bytes.1 p',
      )
      refl

metadata_inv :
    (id : ℕ) (profile : Text) (r : Request) (f : Fields)
    → request_metadata id profile r ≡ some f
    → (hs : Items) × (ascii r.method ≡ some r.method)
      × (headers_json r.headers ≡ some hs)
      × (f ≡ metadata_fields id profile r.method hs r)
unfolding request_metadata
metadata_inv id profile r f e =
    let (m, p, q) = bind-eq-some (ascii r.method) _ f e in
    let (self, same) = ascii-eq-some r.method m p in
    let (hs, p', q') = bind-eq-some (headers_json r.headers) _ f q in
    (hs, self, p', ground (arith, same))

is_empty_ne : (t : Text) → t ≢ [] → is_empty t ≡ false
is_empty_ne [] h = absurd (h refl)
is_empty_ne (c ∷ cs) h = refl

-- A request frame that the parent can build is decoded by its worker to the same identifier and the
-- same arguments of the native session. The identifier is positive, method and URL are not empty,
-- header values are bytes and the timeout is a finite positive float.
pub decode_request-request_metadata :
    (float_of : ℤ → Option Float) (id : ℕ) (profile : Text) (r : Request) (f : Fields)
    → request_metadata id profile r ≡ some f
    → 0 < id
    → r.method ≢ []
    → r.url ≢ []
    → All HasByteValue r.headers
    → is_finite r.timeout ≡ true
    → is_positive r.timeout ≡ true
    → decode_request float_of f r.body profile ≡ ok (id, r)
unfolding decode_request decode_timeout
decode_request-request_metadata float_of id profile r f e id_pos method url bytes finite positive =
    let (hs, self, written, same) = metadata_inv id profile r f e in
    rw same (
      rw
        (
          ==_ne id 0 (omega arith),
          is_empty_ne r.method method,
          is_empty_ne r.url url,
          finite,
          positive,
          text_eq_refl profile,
          decode_headers-headers_json r.headers hs bytes written,
          self,
        )
        refl)
