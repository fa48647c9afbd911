-- ===== src/Ipc/Framing.antt =====
-- _ipc.py: a frame that one side writes is read by the other.
use foxreq.Prelude.{
  ℕ, ◌^◌, ◌≤◌, ◌<◌, ◌≡◌, refl, ap, ◌∙◌, List, [], ◌∷◌, ◌++◌, true, le→ltb, lt→ltb, some,
  append_assoc, arith, pos,
}
use foxreq.Prelude.Lists.{length}
use foxreq.Prelude.Bytes.{to_big, length-to_big, from_big-to_big}
use foxreq.Prelude.Result.{ok, err}
use foxreq.Prelude.Text.{text}
use foxreq.Errors.{worker_error}
use foxreq.Ipc.{
  Source, Sink, JsonCodec, read_exact, flush_all, write_parts, write_frame, read_limited,
  read_frame,
}
use foxreq.Ipc.Streams.{IsFaithfulSource, IsFaithfulSink, read_exact-prefix, write_all_lem}

-- One field: its length in eight bytes and its bytes.
abbrev pub field : List ℕ → List ℕ
field bytes = to_big 8 (length bytes) ++ bytes

abbrev pub frame_bytes : List ℕ → List ℕ → List ℕ
frame_bytes metadata body = field metadata ++ field body

append_cancel : (xs ys zs : List ℕ) → xs ++ ys ≡ xs ++ zs → ys ≡ zs
append_cancel [] ys zs e = e
append_cancel (x ∷ xs) ys zs e = append_cancel xs ys zs (cc)

module _ (sink : Sink) (faithful : IsFaithfulSink sink) where
  write_parts_lem :
      (metadata body : List ℕ) (s : sink.State)
      → (s' : sink.State) × (write_parts sink metadata body s ≡ (ok tt, s'))
        × (faithful.content s' ≡ faithful.content s ++ frame_bytes metadata body)
  unfolding write_parts flush_all
  write_parts_lem metadata body s =
      let (s₁, r₁, c₁) = write_all_lem sink faithful (to_big 8 (length metadata)) s in
      let (s₂, r₂, c₂) = write_all_lem sink faithful metadata s₁ in
      let (s₃, r₃, c₃) = write_all_lem sink faithful (to_big 8 (length body)) s₂ in
      let (s₄, r₄, c₄) = write_all_lem sink faithful body s₃ in
      let (fine, same) = faithful.flushes s₄ in
      ((sink.flush s₄).1, rw (r₁, r₂, r₃, r₄, fine), same ∙ c₄ ∙ simp (c₃, c₂, c₁, append_assoc))

module _ (source : Source) (faithful : IsFaithfulSource source) where
  read_field :
      (bytes rest : List ℕ) (s : source.State)
      → length bytes < 256 ^ 8
      → faithful.content s ≡ field bytes ++ rest
      → (s₁ s₂ : source.State) × (read_exact source 8 s ≡ (ok (to_big 8 (length bytes)), s₁))
        × (read_exact source (length bytes) s₁ ≡ (ok bytes, s₂))
        × (faithful.content s₂ ≡ rest)
  read_field bytes rest s fits e =
      let (s₁, r₁, c₁) =
        read_exact-prefix source faithful (to_big 8 (length bytes)) (bytes ++ rest) 8 s
          (e ∙ append_assoc (to_big 8 (length bytes)) bytes rest)
          (length-to_big 8 (length bytes)) in
      let (s₂, r₂, c₂) = read_exact-prefix source faithful bytes rest (length bytes) s₁ c₁ refl in
      (s₁, s₂, r₁, r₂, c₂)

  read_limited_lem :
      (json : JsonCodec) (metadata : json.Value) (m body rest : List ℕ) (max_m max_b : ℕ)
      (s : source.State)
      → json.is_dict metadata ≡ true
      → json.loads m ≡ some metadata
      → length m ≤ max_m
      → length body ≤ max_b
      → max_m < 256 ^ 8
      → max_b < 256 ^ 8
      → faithful.content s ≡ frame_bytes m body ++ rest
      → (s' : source.State) × (read_limited json source max_m max_b s ≡ (ok (metadata, body), s'))
        × (faithful.content s' ≡ rest)
  unfolding read_limited
  read_limited_lem json metadata m body rest max_m max_b s dict loads hm hb fm fb e =
      let (s₁, s₂, r₁, r₂, c₂) =
        read_field m (field body ++ rest) s (omega arith)
          (e ∙ append_assoc (field m) (field body) rest) in
      let (s₃, s₄, r₃, r₄, c₄) = read_field body rest s₂ (omega arith) c₂ in
      (
        s₄,
        rw (
          r₁,
          from_big-to_big 8 (length m) (omega arith),
          le→ltb max_m (length m) hm,
          r₂,
          r₃,
          from_big-to_big 8 (length body) (omega arith),
          le→ltb max_b (length body) hb,
          r₄,
          loads,
          dict,
        ),
        c₄,
      )

  -- A frame whose length field announces more than the limit is refused before any of it is read.
  pub read_frame_too_long :
      (json : JsonCodec) (size max_m max_b : ℕ) (rest : List ℕ) (s : source.State)
      → max_m < size
      → size < 256 ^ 8
      → faithful.content s ≡ to_big 8 size ++ rest
      → (s' : source.State) × (read_frame json source (pos max_m) (pos max_b) s
          ≡ (err (worker_error (text "worker frame metadata exceeds the limit")), s'))
        × (faithful.content s' ≡ rest)
  unfolding read_frame read_limited
  read_frame_too_long json size max_m max_b rest s long fits e =
      let (s', r, c) =
        read_exact-prefix source faithful (to_big 8 size) rest 8 s e (length-to_big 8 size) in
      (s', rw (r, from_big-to_big 8 size fits, lt→ltb max_m size long), c)

-- A frame that is written over a pipe that delivers bytes in order is read at the other end as the
-- same metadata and body, however the pipe cuts the bytes into pieces on either side, and reading
-- stops at the end of the frame. The metadata is a dict that JSON can encode and decode again; both parts keep
-- within the reader's limits, and the limits below what eight bytes can hold.
pub read_frame-write_frame :
    (json : JsonCodec) (sink : Sink) (source : Source) (out : IsFaithfulSink sink)
    (incoming : IsFaithfulSource source) (metadata : json.Value) (m body before rest : List ℕ)
    (max_m max_b : ℕ) (s : sink.State)
    → json.is_dict metadata ≡ true
    → json.dumps metadata ≡ some m
    → json.loads m ≡ some metadata
    → length m ≤ max_m
    → length body ≤ max_b
    → max_m < 256 ^ 8
    → max_b < 256 ^ 8
    → out.content s ≡ before
    → (s' : sink.State) × (write_frame json sink metadata body s ≡ (ok tt, s'))
      × ((t : source.State)
          → before ++ (incoming.content t) ≡ out.content s' ++ rest
          → (t' : source.State) × (read_frame json source (pos max_m) (pos max_b) t
              ≡ (ok (metadata, body), t'))
            × (incoming.content t' ≡ rest))
unfolding write_frame read_frame
read_frame-write_frame json sink source out incoming metadata m body before rest max_m max_b s dict
      dumps loads hm hb fm fb start =
    let (s', run, sent) = write_parts_lem sink out m body s in
    (
      s',
      rw (dict, dumps) run,
      λ t same.
          read_limited_lem source incoming json metadata m body rest max_m max_b t dict loads hm hb
            fm fb
            (append_cancel before _ _ (
              same
              ∙ ap (λ w. w ++ rest) (sent ∙ ap (λ w. w ++ frame_bytes m body) start)
              ∙ append_assoc before (frame_bytes m body) rest)),
    )
