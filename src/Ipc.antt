-- ===== src/Ipc.antt =====
-- python/foxreq/_ipc.py: frames of JSON metadata and a raw body over a pipe that may read and write
-- less than it is asked to.
pub mod Framing
pub mod Streams
pub mod Progress
use foxreq.Prelude.{
  ℕ, zero, suc, ◌+◌, ◌-◌, ◌≤◌, ◌<◌, ◌≡◌, List, [], ◌∷◌, ◌++◌, Bool, true, false, not, Option, none,
  some, ltb, leb, ◌==◌, if◌then◌else◌, ℤ, pos, negsuc,
}
use foxreq.Prelude.Lists
use foxreq.Prelude.Lists.{length}
use foxreq.Prelude.Bytes.{from_big, to_big}
use foxreq.Prelude.Result.{Result, ok, err}
use foxreq.Prelude.Text.{text}
use foxreq.Errors.{FoxreqError, worker_error}
use foxreq.Exec.{Exec, pure, raise, continue, ◌>>=◌, ◌>>◌}

-- What `stream.read(amount)` may give: bytes, something else, or an exception that is caught.
pub data ReadAnswer : Type 0 where
  chunk : List ℕ → ReadAnswer
  not_bytes broken : ReadAnswer

pub record Source : Type 1 where
  pub State : Type 0
  pub read : ℕ → State → ReadAnswer × State

-- What `stream.write(data)` may give; `refused` stands for a value that is no integer.
pub data WriteAnswer : Type 0 where
  wrote : ℤ → WriteAnswer
  refused broken : WriteAnswer

-- `flush` answers whether it raised nothing, also where the stream has no such method.
pub record Sink : Type 1 where
  pub State : Type 0
  pub write : List ℕ → State → WriteAnswer × State
  pub flush : State → Bool × State

-- `json`, as far as the frames use it: `dumps` gives the UTF-8 bytes or one of the exceptions that
-- are caught, and `loads` a value or one of them.
pub record JsonCodec : Type 1 where
  pub Value : Type 0
  pub is_dict : Value → Bool
  pub dumps : Value → Option (List ℕ)
  pub loads : List ℕ → Option Value

abbrev pub length_bytes : ℕ
length_bytes = 8

unfoldable pub validate_limit : ℤ → FoxreqError → Result FoxreqError ℕ
validate_limit (pos n) e = ok n
validate_limit (negsuc n) e = err e

-- The tests on one chunk, in their order.
unfoldable pub check_chunk : ReadAnswer → ℕ → Result FoxreqError (List ℕ)
check_chunk not_bytes wanted = err (worker_error (text "worker frame stream returned invalid data"))
check_chunk broken wanted = err (worker_error (text "worker frame could not be read"))
check_chunk (chunk c) wanted =
    if length c == 0
    then err (worker_error (text "worker frame is truncated"))
    else if ltb wanted (length c)
    then err (worker_error (text "worker frame stream exceeded the requested length"))
    else ok c

-- The tests on the number of bytes that one call wrote.
unfoldable pub check_written : WriteAnswer → ℕ → Result FoxreqError ℕ
check_written refused wanted = err (worker_error (text "worker frame write made no progress"))
check_written broken wanted = err (worker_error (text "worker frame could not be written"))
check_written (wrote (negsuc n)) wanted =
    err (worker_error (text "worker frame write made no progress"))
check_written (wrote (pos n)) wanted =
    if n == 0
    then err (worker_error (text "worker frame write made no progress"))
    else if ltb wanted n
    then err (worker_error (text "worker frame stream exceeded the source length"))
    else ok n

module _ (source : Source) where
  -- `while len(data) < amount: ...`. A round adds a byte at least or raises, so that `amount` rounds
  -- are enough: `read_exact-length` shows that it never stops short.
  unfoldable pub read_loop : ℕ → ℕ → List ℕ → Exec source.State (List ℕ)
  unfolding check_chunk
  read_loop zero amount got s = (ok got, s)
  read_loop (suc fuel) amount got s =
      let (answer, s') = source.read (amount - length got) s in
      let more =
        continue (check_chunk answer (amount - length got)) (λ c. read_loop fuel amount (got ++ c))
          s' in
      if ltb (length got) amount then more else (ok got, s)

  unfoldable pub read_exact : ℕ → Exec source.State (List ℕ)
  unfolding read_loop
  read_exact amount = read_loop amount amount []

module _ (sink : Sink) where
  -- `while written < len(data): ...`, with as many rounds as there are bytes.
  unfoldable pub write_loop : ℕ → List ℕ → ℕ → Exec sink.State (Unit {0})
  unfolding check_written
  write_loop zero bytes written s = (ok tt, s)
  write_loop (suc fuel) bytes written s =
      let (answer, s') = sink.write (Lists.drop written bytes) s in
      let more =
        continue (check_written answer (length bytes - written))
          (λ n. write_loop fuel bytes (written + n)) s' in
      if ltb written (length bytes) then more else (ok tt, s)

  unfoldable pub write_all : List ℕ → Exec sink.State (Unit {0})
  unfolding write_loop
  write_all bytes = write_loop (length bytes) bytes 0

  unfoldable pub flush_all : Exec sink.State (Unit {0})
  flush_all s =
      let (fine, s') = sink.flush s in
      (if fine then ok tt else err (worker_error (text "worker frame could not be written")), s')

  unfoldable pub write_parts : List ℕ → List ℕ → Exec sink.State (Unit {0})
  write_parts metadata body = do
    write_all (to_big length_bytes (length metadata))
    write_all metadata
    write_all (to_big length_bytes (length body))
    write_all body
    flush_all

module _ (json : JsonCodec) (sink : Sink) where
  abbrev encoded : Option (List ℕ) → List ℕ → Exec sink.State (Unit {0})
  encoded none body = raise (worker_error (text "worker frame cannot be encoded safely"))
  encoded (some metadata) body = write_parts sink metadata body

  -- The body is bytes by its type: that test of the source cannot fail here.
  unfoldable pub write_frame : json.Value → List ℕ → Exec sink.State (Unit {0})
  write_frame metadata body =
      if not (json.is_dict metadata)
      then raise (worker_error (text "worker frame metadata must be an object"))
      else encoded (json.dumps metadata) body

module _ (json : JsonCodec) (source : Source) where
  abbrev decoded : Option json.Value → List ℕ → Exec source.State (json.Value × List ℕ)
  decoded none body = raise (worker_error (text "worker frame metadata is invalid"))
  decoded (some metadata) body =
      if not (json.is_dict metadata)
      then raise (worker_error (text "worker frame metadata must be an object"))
      else pure (metadata, body)

  unfoldable pub read_limited : ℕ → ℕ → Exec source.State (json.Value × List ℕ)
  read_limited max_metadata max_body = do
    metadata_head ← read_exact source length_bytes
    if ltb max_metadata (from_big metadata_head)
        then raise (worker_error (text "worker frame metadata exceeds the limit"))
        else do
          encoded_metadata ← read_exact source (from_big metadata_head)
          body_head ← read_exact source length_bytes
          if ltb max_body (from_big body_head)
              then raise (worker_error (text "worker frame body exceeds the limit"))
              else do
                body ← read_exact source (from_big body_head)
                decoded (json.loads encoded_metadata) body

  unfoldable pub read_frame : ℤ → ℤ → Exec source.State (json.Value × List ℕ)
  unfolding validate_limit
  read_frame max_metadata max_body s =
      continue
        (validate_limit max_metadata (worker_error (text "worker frame metadata limit is invalid")))
        (λ m. λ s.
          continue
            (validate_limit max_body (worker_error (text "worker frame body limit is invalid")))
            (λ b. read_limited m b) s)
        s
