-- ===== src/Anchors.antt =====
-- The trust anchors that the parent sends to its worker: `_encode_anchors` of
-- python/foxreq/_worker_session.py and `_decode_anchors` of python/foxreq/_profile_worker.py.
pub mod RoundTrip
pub mod Strict
use foxreq.Prelude.{
  ℕ, zero, suc, ◌+◌, ◌*◌, ◌≤◌, ◌<◌, List, [], ◌∷◌, ◌++◌, Bool, ltb, ◌==◌, not, if◌then◌else◌,
}
use foxreq.Prelude.Lists
use foxreq.Prelude.Lists.{length}
use foxreq.Prelude.Bytes.{from_big, to_big}
use foxreq.Prelude.Result.{Result, ok, err, ◌>>=◌}
use foxreq.Prelude.Text.{text}
use foxreq.Errors.{FoxreqError, worker_error}

abbrev pub max_body : ℕ
max_body = 16 * 1024 * 1024

abbrev pub max_anchors : ℕ
max_anchors = 4096

abbrev pub Anchor : Type 0
Anchor = List ℕ

-- `for anchor in anchors: ...`, with what is encoded so far
unfoldable pub encode_loop : List ℕ → List Anchor → Result FoxreqError (List ℕ)
encode_loop encoded [] = ok encoded
encode_loop encoded (anchor ∷ anchors) =
    let next = (encoded ++ to_big 4 (length anchor)) ++ anchor in
    let rest = encode_loop next anchors in
    if ltb 0xFFFFFFFF (length anchor)
    then err (worker_error (text "worker trust anchor is too large"))
    else if ltb max_body (length next)
    then err (worker_error (text "worker trust anchors exceed the limit"))
    else rest

unfoldable pub encode_anchors : List Anchor → Result FoxreqError (List ℕ)
unfolding encode_loop
encode_anchors anchors =
    if ltb max_anchors (length anchors)
    then err (worker_error (text "worker trust anchor count exceeds the limit"))
    else encode_loop (to_big 4 (length anchors)) anchors

-- `bytes[start:end]`
abbrev pub slice : List ℕ → ℕ → ℕ → List ℕ
slice bytes start size = Lists.take size (Lists.drop start bytes)

-- `for _ in range(count): ...`, then the test for trailing bytes
unfoldable pub decode_loop : ℕ → List ℕ → ℕ → List Anchor → Result FoxreqError (List Anchor)
decode_loop zero bytes position anchors =
    if not (position == length bytes)
    then err (worker_error (text "worker trust anchor frame has trailing data"))
    else ok anchors
decode_loop (suc count) bytes position anchors =
    let size = from_big (slice bytes position 4) in
    let rest =
      decode_loop count bytes (position + 4 + size)
        (anchors ++ (slice bytes (position + 4) size ∷ [])) in
    if ltb (length bytes) (position + 4)
    then err (worker_error (text "worker trust anchor frame is truncated"))
    else if ltb (length bytes) (position + 4 + size)
    then err (worker_error (text "worker trust anchor frame is truncated"))
    else rest

unfoldable pub decode_anchors : List ℕ → Result FoxreqError (List Anchor)
unfolding decode_loop
decode_anchors bytes =
    if ltb (length bytes) 4
    then err (worker_error (text "worker trust anchor frame is truncated"))
    else if ltb max_anchors (from_big (slice bytes 0 4))
    then err (worker_error (text "worker trust anchor count exceeds the limit"))
    else decode_loop (from_big (slice bytes 0 4)) bytes 4 []
