-- ===== src/Ipc/Streams.antt =====
-- _ipc.py: `_read_exact` and `_write_all` over pipes that move any number of bytes at a time.
use foxreq.Prelude.{
  ℕ, zero, suc, ◌+◌, ◌-◌, ◌≤◌, ◌<◌, ◌≡◌, refl, sym, ap, ◌∙◌, List, [], ◌∷◌, ◌++◌, true, false, ltb,
  lt→ltb, le→ltb, ltb→lt, ltb→le, ◌==◌, append-nil, append_assoc, arith, pos, Bool-cases, inl, inr,
}
use foxreq.Prelude.Lists
use foxreq.Prelude.Lists.{
  length, length-append, length-take, length-drop, take-append-drop, drop-drop, drop_all,
}
use foxreq.Prelude.Result.{Result, ok, err}
use foxreq.Prelude.Text.{text}
use foxreq.Errors.{FoxreqError, worker_error}
use foxreq.Exec.{continue}
use foxreq.Ipc.{
  Source, Sink, ReadAnswer, chunk, not_bytes, broken, wrote, check_chunk, check_written, read_loop,
  read_exact, write_loop, write_all,
}

-- A pipe end that hands its bytes over in order, some at a time: a read gives none only at the end.
pub record IsFaithfulSource (source : Source) : Type 1 where
  pub content : source.State → List ℕ
  pub reads :
      (n : ℕ) (s : source.State)
      → 0 < n
      → (c : List ℕ) × ((source.read n s).0 ≡ chunk c)
        × (content s ≡ c ++ content (source.read n s).1)
        × (length c ≤ n)
        × (0 < length (content s) → 0 < length c)

-- One that takes some of what it is given, at least one byte, and delivers it in order.
pub record IsFaithfulSink (sink : Sink) : Type 1 where
  pub content : sink.State → List ℕ
  pub writes :
      (bytes : List ℕ) (s : sink.State)
      → 0 < length bytes
      → (n : ℕ) × ((sink.write bytes s).0 ≡ wrote (pos n))
        × (0 < n)
        × (n ≤ length bytes)
        × (content (sink.write bytes s).1 ≡ content s ++ Lists.take n bytes)
  pub flushes :
      (s : sink.State) → ((sink.flush s).0 ≡ true) × (content (sink.flush s).1 ≡ content s)

-- The shorter of two beginnings of one list is a beginning of the longer.
split_prefix :
    (c a f b : List ℕ)
    → c ++ a ≡ f ++ b
    → length c ≤ length f
    → (g : List ℕ) × (f ≡ c ++ g) × (a ≡ g ++ b)
split_prefix [] a f b e h = (f, refl, e)
split_prefix (x ∷ c) a [] b e h = absurd (omega arith)
split_prefix (x ∷ c) a (y ∷ f) b e h =
    let (g, p, q) = split_prefix c a f b (cc) (omega arith) in (g, cc, q)

check_chunk_ok :
    (c : List ℕ) (wanted : ℕ)
    → 0 < length c
    → length c ≤ wanted
    → check_chunk (chunk c) wanted ≡ ok c
unfolding check_chunk
check_chunk_ok c wanted p h = ground arith

check_chunk_empty :
    (c : List ℕ) (wanted : ℕ)
    → (length c == 0) ≡ true
    → check_chunk (chunk c) wanted ≡ err (worker_error (text "worker frame is truncated"))
unfolding check_chunk
check_chunk_empty c wanted h = rw h

grow :
    (got c : List ℕ) (fuel amount : ℕ)
    → amount ≤ length got + suc fuel
    → 0 < length c
    → amount ≤ length (got ++ c) + fuel
grow got c fuel amount h k = omega (arith, length-append got c)

check_written_ok : (n wanted : ℕ) → 0 < n → n ≤ wanted → check_written (wrote (pos n)) wanted ≡ ok n
unfolding check_written
check_written_ok n wanted p h = ground arith

check_chunk_bounds :
    (answer : ReadAnswer) (wanted : ℕ) (c : List ℕ)
    → check_chunk answer wanted ≡ ok c
    → (0 < length c) × (length c ≤ wanted)
unfolding check_chunk
check_chunk_bounds (chunk d) wanted c h = ground arith
check_chunk_bounds not_bytes wanted c h = absurd (cc)
check_chunk_bounds broken wanted c h = absurd (cc)

module _ (source : Source) where
  read_loop-length :
      (fuel amount : ℕ) (got bs : List ℕ) (s : source.State)
      → amount ≤ length got + fuel
      → length got ≤ amount
      → (read_loop source fuel amount got s).0 ≡ ok bs
      → length bs ≡ amount
  unfolding read_loop
  read_loop-length zero amount got bs s h k e = ground arith
  read_loop-length (suc fuel) amount got bs s h k e = elim (Bool-cases (ltb (length got) amount)) [
    | inl more ↦
        next (λ c. read_loop-length fuel amount (got ++ c) bs (source.read wanted s).1)
          (check_chunk (source.read wanted s).0 wanted) refl (rw more at e)
    | inr over ↦ omega (arith, ap length (got_is over), ltb→le (length got) amount over)
  ]
    where
      wanted : ℕ
      wanted = amount - length got

      got_is : ltb (length got) amount ≡ false → got ≡ bs
      got_is over = ground arith

      next :
          ((c : List ℕ)
            → amount ≤ length (got ++ c) + fuel
            → length (got ++ c) ≤ amount
            → (read_loop source fuel amount (got ++ c) (source.read wanted s).1).0 ≡ ok bs
            → length bs ≡ amount)
          → (o : Result FoxreqError (List ℕ)) → check_chunk (source.read wanted s).0 wanted ≡ o
          → (continue o (λ c. read_loop source fuel amount (got ++ c)) (source.read wanted s).1).0
            ≡ ok bs
          → length bs ≡ amount
      next ih (ok c) q e' =
          ih c
            (omega
              (arith, length-append got c, check_chunk_bounds (source.read wanted s).0 wanted c q))
            (omega
              (arith, length-append got c, check_chunk_bounds (source.read wanted s).0 wanted c q))
            e'
      next ih (err x) q e' = cc

  -- On any stream, however it behaves, a read that succeeds has exactly the number of bytes asked for.
  pub read_exact-length :
      (amount : ℕ) (s s' : source.State) (bs : List ℕ)
      → read_exact source amount s ≡ (ok bs, s')
      → length bs ≡ amount
  unfolding read_exact
  read_exact-length amount s s' bs e =
      read_loop-length amount amount [] bs s (omega arith) (omega arith) (ap (λ r. r.0) e)

  module _ (faithful : IsFaithfulSource source) where
    read_loop_lem :
        (fuel amount : ℕ) (got f rest : List ℕ) (s : source.State)
        → faithful.content s ≡ f ++ rest
        → length got + length f ≡ amount
        → length f ≤ fuel
        → (s' : source.State) × (read_loop source fuel amount got s ≡ (ok (got ++ f), s'))
          × (faithful.content s' ≡ rest)
    unfolding read_loop
    read_loop_lem zero amount got [] rest s e h k = (s, rw (append-nil got), e)
    read_loop_lem zero amount got (x ∷ f) rest s e h k = absurd (omega arith)
    read_loop_lem (suc fuel) amount got [] rest s e h k =
        (s, rw (le→ltb (length got) amount (omega arith), append-nil got), e)
    read_loop_lem (suc fuel) amount got (x ∷ f) rest s e h k =
        let wanted = amount - length got in
        let (c, answer, moved, most, some) = faithful.reads wanted s (omega arith) in
        let nonempty : 0 < length c = some (omega (arith, ap length e)) in
        let (g, p, q) =
          split_prefix c (faithful.content (source.read wanted s).1) (x ∷ f) rest (sym moved ∙ e)
            (omega arith) in
        let (s', run, left) =
          read_loop_lem fuel amount (got ++ c) g rest (source.read wanted s).1 q
            (omega (arith, length-append got c, length-append c g, ap length p))
            (omega (arith, length-append c g, ap length p)) in
        let joined : (got ++ c) ++ g ≡ got ++ (x ∷ f) =
          append_assoc got c g ∙ ap (λ w. got ++ w) (sym p) in
        (
          s',
          rw
              (
                lt→ltb (length got) amount (omega arith),
                answer,
                check_chunk_ok c wanted nonempty most,
                ← joined,
              )
              run,
          left,
        )

    -- A faithful stream that holds the bytes yields them, and keeps the rest, in whatever pieces
    -- they come.
    pub read_exact-prefix :
        (f rest : List ℕ) (amount : ℕ) (s : source.State)
        → faithful.content s ≡ f ++ rest
        → length f ≡ amount
        → (s' : source.State) × (read_exact source amount s ≡ (ok f, s'))
          × (faithful.content s' ≡ rest)
    unfolding read_exact
    read_exact-prefix f rest amount s e h =
        read_loop_lem amount amount [] f rest s e (omega arith) (omega arith)

    short_lem :
        (fuel amount : ℕ) (got : List ℕ) (s : source.State)
        → length got + length (faithful.content s) < amount
        → amount ≤ length got + fuel
        → (read_loop source fuel amount got s).0
          ≡ err (worker_error (text "worker frame is truncated"))
    unfolding read_loop
    short_lem zero amount got s h k = absurd (omega arith)
    short_lem (suc fuel) amount got s h k =
        let wanted = amount - length got in
        let (c, answer, moved, most, some) = faithful.reads wanted s (omega arith) in
        let next = (source.read wanted s).1 in
        rw (lt→ltb (length got) amount (omega arith), answer)
          (elim (Bool-cases (length c == 0)) [
            | inl none_left ↦ rw (check_chunk_empty c wanted none_left)
            | inr some_left ↦ rw (check_chunk_ok c wanted (ground arith) most) (
                short_lem fuel amount (got ++ c) next
                  (omega (
                    arith,
                    length-append got c,
                    length-append c (faithful.content next),
                    ap length moved,
                  ))
                  (grow got c fuel amount k (ground arith)))
          ])

    -- A faithful stream that ends before the bytes asked for is reported as truncated.
    pub read_exact_truncated :
        (amount : ℕ) (s : source.State)
        → length (faithful.content s) < amount
        → (read_exact source amount s).0 ≡ err (worker_error (text "worker frame is truncated"))
    unfolding read_exact
    read_exact_truncated amount s h = short_lem amount amount [] s (omega arith) (omega arith)

module _ (sink : Sink) (faithful : IsFaithfulSink sink) where
  write_loop_lem :
      (fuel : ℕ) (bytes : List ℕ) (written : ℕ) (s : sink.State)
      → written ≤ length bytes
      → length bytes ≤ written + fuel
      → (s' : sink.State) × (write_loop sink fuel bytes written s ≡ (ok tt, s'))
        × (faithful.content s' ≡ faithful.content s ++ Lists.drop written bytes)
  unfolding write_loop
  write_loop_lem zero bytes written s h k = (
    s,
    refl,
    sym (ap (λ r. faithful.content s ++ r) (drop_all written bytes (omega arith)) ∙ append-nil _),
  )
  write_loop_lem (suc fuel) bytes written s h k = elim (Bool-cases (ltb written (length bytes))) [
    | inr over ↦ (
      s,
      rw over,
      sym (
          ap (λ r. faithful.content s ++ r) (drop_all written bytes (ltb→le _ _ over))
          ∙ append-nil _),
    )
    | inl more ↦
        let left = Lists.drop written bytes in
        let (n, answer, some, most, moved) =
          faithful.writes left s (omega (arith, length-drop written bytes, ltb→lt _ _ more)) in
        let (s', run, delivered) =
          write_loop_lem fuel bytes (written + n) (sink.write left s).1
            (omega (arith, length-drop written bytes)) (omega (arith, length-drop written bytes)) in
        (
          s',
          rw
              (
                more,
                answer,
                check_written_ok n (length bytes - written) some
                    (omega (arith, length-drop written bytes)),
              )
              run,
          delivered
              ∙ ap (λ w. w ++ Lists.drop (written + n) bytes) moved
              ∙ append_assoc (faithful.content s) (Lists.take n left) _
              ∙ ap (λ w. faithful.content s ++ w)
                  (ap (λ w. Lists.take n left ++ w) (sym (drop-drop written n bytes))
                    ∙ take-append-drop n left),
        )
  ]

  -- Everything is delivered, in order, in whatever pieces the stream takes it.
  pub write_all_lem :
      (bytes : List ℕ) (s : sink.State)
      → (s' : sink.State) × (write_all sink bytes s ≡ (ok tt, s'))
        × (faithful.content s' ≡ faithful.content s ++ bytes)
  unfolding write_all
  write_all_lem bytes s = write_loop_lem (length bytes) bytes 0 s (omega arith) (omega arith)
