-- ===== src/Anchors/Strict.antt =====
-- What the worker decodes is exactly what its frame says: no byte is skipped or left over.
use foxreq.Prelude.{
  ℕ, zero, suc, ◌+◌, ◌≤◌, ◌≡◌, refl, sym, ap, ap₂, ◌∙◌, subst, List, [], ◌∷◌, ◌++◌, append-nil,
  append_assoc, arith,
}
use foxreq.Prelude.Lists
use foxreq.Prelude.Lists.{
  length, length-append, length-drop, length-take, drop-drop, drop_all, take-append-drop, join, All,
  All-append_left, All-append_right,
}
use foxreq.Prelude.Bytes.{from_big, to_big, length-to_big, AllBytes, IsByte, to_big-from_big}
use foxreq.Prelude.Result.{ok}
use foxreq.Anchors.{
  Anchor, max_body, max_anchors, encode_loop, encode_anchors, slice, decode_loop, decode_anchors,
}
use foxreq.Anchors.RoundTrip.{anchor_bytes, anchor_list, decode_round}

AllBytes-drop : (n : ℕ) (bytes : List ℕ) → AllBytes bytes → AllBytes (Lists.drop n bytes)
AllBytes-drop n bytes h =
    All-append_right IsByte (Lists.take n bytes) _
      (subst AllBytes (sym (take-append-drop n bytes)) h)

AllBytes-take : (n : ℕ) (bytes : List ℕ) → AllBytes bytes → AllBytes (Lists.take n bytes)
AllBytes-take n bytes h =
    All-append_left IsByte (Lists.take n bytes) _
      (subst AllBytes (sym (take-append-drop n bytes)) h)

-- What is left from a position on begins with four bytes of length.
slice_length :
    (bytes : List ℕ) (position : ℕ)
    → AllBytes bytes
    → position + 4 ≤ length bytes
    → slice bytes position 4 ≡ to_big 4 (from_big (slice bytes position 4))
slice_length bytes position h fits =
    sym
      (to_big-from_big 4 (slice bytes position 4)
        (length-take 4 (Lists.drop position bytes) (omega (arith, length-drop position bytes)))
        (AllBytes-take 4 (Lists.drop position bytes) (AllBytes-drop position bytes h))).0

split_anchor :
    (bytes : List ℕ) (position size : ℕ)
    → AllBytes bytes
    → from_big (slice bytes position 4) ≡ size
    → position + 4 + size ≤ length bytes
    → Lists.drop position bytes
      ≡ anchor_bytes (slice bytes (position + 4) size) ++ Lists.drop (position + 4 + size) bytes
split_anchor bytes position size h e fits =
    sym (take-append-drop 4 (Lists.drop position bytes))
    ∙ ap₂ (λ (x y : List ℕ). x ++ y)
        (slice_length bytes position h (omega arith)
          ∙ ap (to_big 4)
              (e ∙ sym (length-take size _ (omega (arith, length-drop (position + 4) bytes)))))
        (drop-drop position 4 bytes
          ∙ sym (take-append-drop size (Lists.drop (position + 4) bytes))
          ∙ ap (λ r. slice bytes (position + 4) size ++ r) (drop-drop (position + 4) size bytes))
    ∙ sym (append_assoc (to_big 4 _) (slice bytes (position + 4) size) _)

-- A round that does not raise stays within the bytes.
round_fits :
    (count : ℕ) (bytes : List ℕ) (position : ℕ) (acc result : List Anchor)
    → decode_loop (suc count) bytes position acc ≡ ok result
    → position + 4 + from_big (slice bytes position 4) ≤ length bytes
unfolding decode_loop
round_fits count bytes position acc result e = ground arith

end_at_length :
    (bytes : List ℕ) (position : ℕ) (acc result : List Anchor)
    → decode_loop zero bytes position acc ≡ ok result
    → (position ≡ length bytes) × (acc ≡ result)
unfolding decode_loop
end_at_length bytes position acc result e = ground arith

abbrev Decoded : ℕ → List ℕ → List Anchor → List Anchor → Type 0
Decoded count left acc result =
    (more : List Anchor) × (result ≡ acc ++ more)
    × (length more ≡ count)
    × (left ≡ anchor_list more)

decode_loop-Decoded :
    (count : ℕ) (bytes : List ℕ) (position : ℕ) (acc result : List Anchor)
    → AllBytes bytes
    → decode_loop count bytes position acc ≡ ok result
    → Decoded count (Lists.drop position bytes) acc result
decode_loop-Decoded zero bytes position acc result h e =
    let (p, r) = end_at_length bytes position acc result e in
    (
      [],
      sym r ∙ sym (append-nil acc),
      refl,
      ap (λ n. Lists.drop n bytes) p ∙ drop_all (length bytes) bytes (omega arith),
    )
decode_loop-Decoded (suc count) bytes position acc result h e =
    let size = from_big (slice bytes position 4) in
    let a = slice bytes (position + 4) size in
    let fits : position + 4 + size ≤ length bytes = round_fits count bytes position acc result e in
    let (more, r, l, left) =
      decode_loop-Decoded count bytes (position + 4 + size) (acc ++ (a ∷ [])) result h
        (sym (decode_round count bytes position acc size a refl refl fits) ∙ e) in
    (
      a ∷ more,
      r ∙ append_assoc acc (a ∷ []) more,
      omega arith,
      split_anchor bytes position size h refl fits ∙ ap (λ w. anchor_bytes a ++ w) left,
    )

-- A frame of bytes that the worker accepts is the count and then the anchors, each behind its
-- length: nothing is skipped, read twice or left over.
pub decode_anchors_strict :
    (bytes : List ℕ) (anchors : List Anchor)
    → AllBytes bytes
    → decode_anchors bytes ≡ ok anchors
    → (bytes ≡ to_big 4 (length anchors) ++ anchor_list anchors) × (length anchors ≤ max_anchors)
unfolding decode_anchors
decode_anchors_strict bytes anchors h e =
    let (more, r, l, left) =
      decode_loop-Decoded (from_big (slice bytes 0 4)) bytes 4 [] anchors h (ground arith) in
    let count : length anchors ≡ from_big (slice bytes 0 4) = ap length r ∙ l in
    (
      sym (take-append-drop 4 bytes)
          ∙ ap₂ (λ (x y : List ℕ). x ++ y)
              (slice_length bytes 0 h (ground arith) ∙ ap (to_big 4) (sym count))
              (left ∙ ap anchor_list (sym r)),
      ground arith,
    )

encode_loop-length :
    (anchors : List Anchor) (encoded result : List ℕ)
    → length encoded ≤ max_body
    → encode_loop encoded anchors ≡ ok result
    → length result ≤ max_body
unfolding encode_loop
encode_loop-length [] encoded result h e = ground arith
encode_loop-length (a ∷ anchors) encoded result h e =
    encode_loop-length anchors ((encoded ++ to_big 4 (length a)) ++ a) result (ground arith)
      (ground arith)

-- What the parent encodes fits the limit that the worker puts on a frame's body.
pub encode_anchors-length :
    (anchors : List Anchor) (encoded : List ℕ)
    → encode_anchors anchors ≡ ok encoded
    → length encoded ≤ max_body
unfolding encode_anchors
encode_anchors-length anchors encoded e =
    encode_loop-length anchors (to_big 4 (length anchors)) encoded
      (omega (arith, length-to_big 4 (length anchors))) (ground arith)
