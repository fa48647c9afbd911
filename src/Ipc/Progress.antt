-- ===== src/Ipc/Progress.antt =====
-- _ipc.py: reading a frame uses up bytes of the stream.
use foxreq.Prelude.{
  ℕ, zero, suc, ◌+◌, ◌-◌, ◌≤◌, ◌<◌, ◌≡◌, refl, ap, ◌∙◌, List, [], ◌++◌, Bool, true, false, not,
  Option, none, some, ltb, ltb→lt, Bool-cases, inl, inr, arith, if◌then◌else◌, pos,
}
use foxreq.Prelude.Lists.{length, length-append}
use foxreq.Prelude.Bytes.{from_big}
use foxreq.Prelude.Result.{Result, ok, err}
use foxreq.Prelude.Text.{text}
use foxreq.Errors.{FoxreqError, worker_error}
use foxreq.Exec.{Exec, continue, ◌>>=◌, raise}
use foxreq.Exec.Rules.{Keeps, bind-Keeps}
use foxreq.Ipc.{
  Source, chunk, JsonCodec, length_bytes, check_chunk, read_loop, read_exact, read_limited,
  read_frame, decoded,
}
use foxreq.Ipc.Streams.{IsFaithfulSource, read_exact-length}

check_chunk-eq-ok : (c d : List ℕ) (wanted : ℕ) → check_chunk (chunk c) wanted ≡ ok d → d ≡ c
unfolding check_chunk
check_chunk-eq-ok c d wanted e = ground arith

module _ (source : Source) (faithful : IsFaithfulSource source) where
  abbrev pub left : source.State → ℕ
  left s = length (faithful.content s)

  -- What is read is gone from the stream.
  abbrev Moved : List ℕ → source.State → Result FoxreqError (List ℕ) × source.State → Type 0
  Moved got s (r, t) =
      (left t ≤ left s) × ((bs : List ℕ) → r ≡ ok bs → length bs + left t ≤ length got + left s)

  read_loop-Moved :
      (fuel amount : ℕ) (got : List ℕ) (s : source.State)
      → Moved got s (read_loop source fuel amount got s)
  unfolding read_loop
  read_loop-Moved zero amount got s = (omega arith, λ bs e. ground arith)
  read_loop-Moved (suc fuel) amount got s = elim (Bool-cases (ltb (length got) amount)) [
    | inr over ↦ rw over (omega arith, λ bs e. ground arith)
    | inl more ↦
        let wanted = amount - length got in
        let (c, answer, moved, most, some_bytes) =
          faithful.reads wanted s (omega (arith, ltb→lt (length got) amount more)) in
        let size : left s ≡ length c + left (source.read wanted s).1 =
          ap length moved ∙ length-append c (faithful.content (source.read wanted s).1) in
        rw (more, answer)
          (next c size (λ d. read_loop-Moved fuel amount (got ++ d) (source.read wanted s).1)
            (check_chunk (chunk c) wanted) (λ d. check_chunk-eq-ok c d wanted))
  ]
    where
      t : source.State
      t = (source.read (amount - length got) s).1

      next :
          (c : List ℕ)
          → left s ≡ length c + left t
          → ((d : List ℕ) → Moved (got ++ d) t (read_loop source fuel amount (got ++ d) t))
          → (o : Result FoxreqError (List ℕ)) → ((d : List ℕ) → o ≡ ok d → d ≡ c)
          → Moved got s (continue o (λ d. read_loop source fuel amount (got ++ d)) t)
      next c size ih (err x) h = (omega arith, λ bs e. absurd (cc))
      next c size ih (ok d) h =
          let (a, b) = ih d in
          let same : length d ≡ length c = ap length (h d refl) in
          (omega arith, λ bs e. omega (arith, b bs e, length-append got d))

  abbrev Shrinks : source.State → source.State → Type 0
  Shrinks s t = left t ≤ left s

  read_exact-Shrinks : (n : ℕ) → Keeps Shrinks (read_exact source n)
  unfolding read_exact
  read_exact-Shrinks n = record { keeps = λ s. (read_loop-Moved n n [] s).0 }

  read_exact-moves :
      (n : ℕ) (s : source.State) (bs : List ℕ)
      → (read_exact source n s).0 ≡ ok bs
      → length bs + left (read_exact source n s).1 ≤ left s
  unfolding read_exact
  read_exact-moves n s bs e = omega (arith, (read_loop-Moved n n [] s).1 bs e)

  chain {ℓ κ} :
      {A : Type ℓ} {B : Type κ} (m : Exec source.State A) (f : A → Exec source.State B)
      → Keeps Shrinks m
      → ((a : A) → Keeps Shrinks (f a))
      → Keeps Shrinks (m >>= f)
  chain m f = bind-Keeps m f Shrinks (λ s t u h k. omega arith)

  if-Shrinks {ℓ} :
      {A : Type ℓ} (b : Bool) (e : FoxreqError) (n : Exec source.State A)
      → Keeps Shrinks n
      → Keeps Shrinks (if b then raise e else n)
  if-Shrinks true e n k = record { keeps = λ s. omega arith }
  if-Shrinks false e n k = k

  decoded-Shrinks :
      (json : JsonCodec) (v : Option json.Value) (body : List ℕ)
      → Keeps Shrinks (decoded json source v body)
  decoded-Shrinks json none body = record { keeps = λ s. omega arith }
  decoded-Shrinks json (some v) body =
      if-Shrinks (not (json.is_dict v)) _ (λ s. (ok (v, body), s))
        (record { keeps = λ s. omega arith })

  abbrev after_head : (json : JsonCodec) → ℕ → ℕ → List ℕ → Exec source.State (json.Value × List ℕ)
  after_head json max_metadata max_body metadata_head =
      if ltb max_metadata (from_big metadata_head)
      then raise (worker_error (text "worker frame metadata exceeds the limit"))
      else (do
        encoded_metadata ← read_exact source (from_big metadata_head)
        body_head ← read_exact source length_bytes
        if ltb max_body (from_big body_head)
            then raise (worker_error (text "worker frame body exceeds the limit"))
            else do
              body ← read_exact source (from_big body_head)
              decoded json source (json.loads encoded_metadata) body)

  after_head-Shrinks :
      (json : JsonCodec) (m b : ℕ) (head : List ℕ) → Keeps Shrinks (after_head json m b head)
  after_head-Shrinks json m b head = if-Shrinks (ltb m (from_big head)) _ _ (
      chain (read_exact source (from_big head)) _ (read_exact-Shrinks (from_big head)) λ encoded.
        chain (read_exact source length_bytes) _ (read_exact-Shrinks length_bytes) λ body_head.
          if-Shrinks (ltb b (from_big body_head)) _ _ (
            chain (read_exact source (from_big body_head)) _
              (read_exact-Shrinks (from_big body_head))
              λ body. decoded-Shrinks json (json.loads encoded) body))

  -- A frame that is read takes bytes away.
  pub read_frame-left :
      (json : JsonCodec) (m b : ℕ) (s : source.State) (x : json.Value × List ℕ)
      → (read_frame json source (pos m) (pos b) s).0 ≡ ok x
      → left (read_frame json source (pos m) (pos b) s).1 < left s
  unfolding read_frame read_limited
  read_frame-left json m b s x e =
      headed (read_exact source 8 s).0
        (λ head p. omega (
          arith,
          read_exact-moves 8 s head p,
          read_exact-length source 8 s (read_exact source 8 s).1 head
              (λ i. (p i, (read_exact source 8 s).1)),
        ))
        e
    where
      t : source.State
      t = (read_exact source 8 s).1

      headed :
          (o : Result FoxreqError (List ℕ))
          → ((head : List ℕ) → o ≡ ok head → left t < left s)
          → (continue o (after_head json m b) t).0 ≡ ok x
          → left (continue o (after_head json m b) t).1 < left s
      headed (ok head) h q = omega (arith, h head refl, (after_head-Shrinks json m b head).keeps t)
      headed (err y) h q = absurd (cc)
