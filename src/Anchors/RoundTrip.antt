-- ===== src/Anchors/RoundTrip.antt =====
-- What the parent encodes, the worker decodes.
use foxreq.Prelude.{
  ℕ, suc, ◌+◌, ◌≤◌, ◌≡◌, refl, sym, ap, ap₂, ◌∙◌, List, [], ◌∷◌, ◌++◌, map, ltb, ltb→le, le→ltb,
  ==_refl, append-nil, append_assoc, arith, Bool-cases, inl, inr,
}
use foxreq.Prelude.Lists.{length, length-append, join, All, take-append, drop-append}
use foxreq.Prelude.Bytes.{from_big, to_big, length-to_big, from_big-to_big}
use foxreq.Prelude.Result.{ok}
use foxreq.Anchors.{
  Anchor, max_anchors, encode_loop, encode_anchors, slice, decode_loop, decode_anchors,
}

-- An anchor behind its length.
abbrev pub anchor_bytes : Anchor → List ℕ
anchor_bytes a = to_big 4 (length a) ++ a

abbrev pub anchor_list : List Anchor → List ℕ
anchor_list anchors = join (map anchor_bytes anchors)

abbrev FitsLength : Anchor → Type 0
FitsLength a = length a ≤ 0xFFFFFFFF

-- A successful encoding is the count and the anchors behind their lengths, all within the limits.
encode_loop_lem :
    (anchors : List Anchor) (encoded result : List ℕ)
    → encode_loop encoded anchors ≡ ok result
    → (result ≡ encoded ++ anchor_list anchors) × All FitsLength anchors
unfolding encode_loop
encode_loop_lem [] encoded result h = (ground (arith, append-nil encoded), tt)
encode_loop_lem (a ∷ anchors) encoded result h =
    let next = (encoded ++ to_big 4 (length a)) ++ a in
    let (e, fits) = encode_loop_lem anchors next result (ground arith) in
    (
      e
          ∙ append_assoc (encoded ++ to_big 4 (length a)) a (anchor_list anchors)
          ∙ append_assoc encoded (to_big 4 (length a)) (a ++ anchor_list anchors)
          ∙ ap (λ r. encoded ++ r)
              (sym (append_assoc (to_big 4 (length a)) a (anchor_list anchors))),
      (ground arith, fits),
    )

slice_lem :
    (before f rest : List ℕ) (size : ℕ)
    → length f ≡ size
    → slice (before ++ (f ++ rest)) (length before) size ≡ f
slice_lem before f rest size h = rw (drop-append, ← h, take-append)

-- One round, from what it reads: the length, then that many bytes.
pub decode_round :
    (count : ℕ) (bytes : List ℕ) (position : ℕ) (acc : List Anchor) (size : ℕ) (a : Anchor)
    → from_big (slice bytes position 4) ≡ size
    → slice bytes (position + 4) size ≡ a
    → position + 4 + size ≤ length bytes
    → decode_loop (suc count) bytes position acc
      ≡ decode_loop count bytes (position + 4 + size) (acc ++ (a ∷ []))
unfolding decode_loop
decode_round count bytes position acc size a e e' fits = rw (
  e,
  e',
  le→ltb (length bytes) (position + 4) (omega arith),
  le→ltb (length bytes) (position + 4 + size) fits,
)

length_read :
    (before rest : List ℕ) (a : Anchor)
    → length a ≤ 0xFFFFFFFF
    → from_big (slice (before ++ (anchor_bytes a ++ rest)) (length before) 4) ≡ length a
length_read before rest a h =
    ap (λ w. from_big (slice (before ++ w) (length before) 4))
      (append_assoc (to_big 4 (length a)) a rest)
    ∙ ap from_big
        (slice_lem before (to_big 4 (length a)) (a ++ rest) 4 (length-to_big 4 (length a)))
    ∙ from_big-to_big 4 (length a) (omega arith)

body_read :
    (before rest : List ℕ) (a : Anchor)
    → slice (before ++ (anchor_bytes a ++ rest)) (length before + 4) (length a) ≡ a
body_read before rest a =
    ap (λ w. slice w (length before + 4) (length a))
      (ap (λ w. before ++ w) (append_assoc (to_big 4 (length a)) a rest)
        ∙ sym (append_assoc before (to_big 4 (length a)) (a ++ rest)))
    ∙ ap (λ n. slice ((before ++ to_big 4 (length a)) ++ (a ++ rest)) n (length a))
        (omega (arith, length-append before (to_big 4 (length a)), length-to_big 4 (length a)))
    ∙ slice_lem (before ++ to_big 4 (length a)) a rest (length a) refl

decode_loop_step :
    (count : ℕ) (before rest : List ℕ) (a : Anchor) (acc : List Anchor)
    → length a ≤ 0xFFFFFFFF
    → decode_loop (suc count) (before ++ (anchor_bytes a ++ rest)) (length before) acc
      ≡ decode_loop count
          ((before ++ anchor_bytes a) ++ rest)
          (length (before ++ anchor_bytes a))
          (acc ++ (a ∷ []))
decode_loop_step count before rest a acc h =
    decode_round count (before ++ (anchor_bytes a ++ rest)) (length before) acc (length a) a
      (length_read before rest a h) (body_read before rest a)
      (omega (
        arith,
        length-append before (anchor_bytes a ++ rest),
        length-append (anchor_bytes a) rest,
        length-append (to_big 4 (length a)) a,
        length-to_big 4 (length a),
      ))
    ∙ ap₂ (λ w n. decode_loop count w n (acc ++ (a ∷ [])))
        (sym (append_assoc before (anchor_bytes a) rest))
        (omega (
          arith,
          length-append before (anchor_bytes a),
          length-append (to_big 4 (length a)) a,
          length-to_big 4 (length a),
        ))

decode_loop_lem :
    (anchors acc : List Anchor) (before : List ℕ)
    → All FitsLength anchors
    → decode_loop (length anchors) (before ++ anchor_list anchors) (length before) acc
      ≡ ok (acc ++ anchors)
decode_loop_lem [] acc before h =
    rw (append-nil before, append-nil acc) (unfold decode_loop in rw (==_refl (length before)))
decode_loop_lem (a ∷ anchors) acc before h =
    decode_loop_step (length anchors) before (anchor_list anchors) a acc h.0
    ∙ decode_loop_lem anchors (acc ++ (a ∷ [])) (before ++ anchor_bytes a) h.1
    ∙ ap ok (append_assoc acc (a ∷ []) anchors)

-- A successful encoding is the count and then the anchors, each behind its length.
encode_anchors_lem :
    (anchors : List Anchor) (encoded : List ℕ)
    → encode_anchors anchors ≡ ok encoded
    → (encoded ≡ to_big 4 (length anchors) ++ anchor_list anchors)
      × All FitsLength anchors
      × (length anchors ≤ max_anchors)
unfolding encode_anchors
encode_anchors_lem anchors encoded h = elim (Bool-cases (ltb max_anchors (length anchors))) [
  | inl many ↦ ground arith
  | inr few ↦ (
    (encode_loop_lem anchors (to_big 4 (length anchors)) encoded (ground arith)).0,
    (encode_loop_lem anchors (to_big 4 (length anchors)) encoded (ground arith)).1,
    ltb→le max_anchors (length anchors) few,
  )
]

decode_written :
    (anchors : List Anchor)
    → All FitsLength anchors
    → length anchors ≤ max_anchors
    → decode_anchors (to_big 4 (length anchors) ++ anchor_list anchors) ≡ ok anchors
unfolding decode_anchors
decode_written anchors fits few =
    rw
      (
        le→ltb (length (to_big 4 (length anchors) ++ anchor_list anchors)) 4 (
            omega (
              arith,
              length-append (to_big 4 (length anchors)) (anchor_list anchors),
              length-to_big 4 (length anchors),
            )),
        slice_lem [] (to_big 4 (length anchors)) (anchor_list anchors) 4
            (length-to_big 4 (length anchors)),
        from_big-to_big 4 (length anchors) (omega arith),
        le→ltb max_anchors (length anchors) few,
      )
      (ap
          (λ n.
            decode_loop (length anchors) (to_big 4 (length anchors) ++ anchor_list anchors) n [])
          (sym (length-to_big 4 (length anchors)))
        ∙ decode_loop_lem anchors [] (to_big 4 (length anchors)) fits)

-- Whatever the parent manages to encode, the worker decodes to the same anchors in the same order.
pub decode_anchors-encode_anchors :
    (anchors : List Anchor) (encoded : List ℕ)
    → encode_anchors anchors ≡ ok encoded
    → decode_anchors encoded ≡ ok anchors
decode_anchors-encode_anchors anchors encoded h =
    let (e, fits, few) = encode_anchors_lem anchors encoded h in
    rw e (decode_written anchors fits few)
