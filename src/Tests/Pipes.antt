-- ===== src/Tests/Pipes.antt =====
-- python/foxreq: pipes that move one or two bytes at a time, and the anchors.
use foxreq.Prelude.{ℕ, ◌≤◌, ◌<◌, ◌≡◌, refl, sym, List, [], ◌∷◌, ◌++◌, true, some, arith, pos, min}
use foxreq.Prelude.Lists
use foxreq.Prelude.Lists.{length, length-take, take-append-drop}
use foxreq.Prelude.Bytes.{to_big, AllBytes}
use foxreq.Prelude.Result.{ok}
use foxreq.Anchors.{Anchor, encode_anchors, decode_anchors, max_body, max_anchors}
use foxreq.Anchors.RoundTrip.{anchor_list, decode_anchors-encode_anchors}
use foxreq.Anchors.Strict.{decode_anchors_strict, encode_anchors-length}
use foxreq.Ipc.{Source, Sink, chunk, wrote, JsonCodec, read_exact, read_frame, write_frame}
use foxreq.Ipc.Streams.{IsFaithfulSource, IsFaithfulSink, read_exact-length}
use foxreq.Ipc.Framing.{read_frame-write_frame}

abbrev two_anchors : List Anchor
two_anchors = (1 ∷ 2 ∷ []) ∷ [] ∷ []

abbrev two_encoded : List ℕ
two_encoded = 0 ∷ 0 ∷ 0 ∷ 2 ∷ 0 ∷ 0 ∷ 0 ∷ 2 ∷ 1 ∷ 2 ∷ 0 ∷ 0 ∷ 0 ∷ 0 ∷ []

two_anchors_encode : encode_anchors two_anchors ≡ ok two_encoded
unfolding encode_anchors
two_anchors_encode = unfold to_big in refl

two_encoded-AllBytes : AllBytes two_encoded
two_encoded-AllBytes = omega arith

decode_anchors-encode_anchors_example : decode_anchors two_encoded ≡ ok two_anchors
decode_anchors-encode_anchors_example =
    decode_anchors-encode_anchors two_anchors two_encoded two_anchors_encode

decode_anchors_strict_example :
    (two_encoded ≡ to_big 4 (length two_anchors) ++ anchor_list two_anchors)
    × (length two_anchors ≤ max_anchors)
decode_anchors_strict_example =
    decode_anchors_strict two_encoded two_anchors two_encoded-AllBytes
      decode_anchors-encode_anchors_example

encode_anchors-length_example : length two_encoded ≤ max_body
encode_anchors-length_example = encode_anchors-length two_anchors two_encoded two_anchors_encode

-- A read gives one byte, or none at the end.
abbrev pub byte_source : Source
byte_source = record { State = List ℕ; read = λ n s. (chunk (Lists.take 1 s), Lists.drop 1 s) }

-- A write takes two bytes at most.
abbrev pub pair_sink : Sink
pair_sink = record {
  State = List ℕ;
  write = λ b s. (wrote (pos (min 2 (length b))), s ++ Lists.take (min 2 (length b)) b);
  flush = λ s. (true, s);
}

pub one_byte_at_most : (n : ℕ) (s : List ℕ) → 0 < n → length (Lists.take 1 s) ≤ n
one_byte_at_most n [] h = omega arith
one_byte_at_most n (x ∷ s) h = omega arith

pub one_byte_some : (s : List ℕ) → 0 < length s → 0 < length (Lists.take 1 s)
one_byte_some [] h = h
one_byte_some (x ∷ s) h = omega arith

abbrev pub byte_source-IsFaithfulSource : IsFaithfulSource byte_source
byte_source-IsFaithfulSource = record {
  content = λ s. s;
  reads = λ n s h.
      (Lists.take 1 s, refl, sym (take-append-drop 1 s), one_byte_at_most n s h, one_byte_some s);
}

abbrev pair_sink-IsFaithfulSink : IsFaithfulSink pair_sink
pair_sink-IsFaithfulSink = record {
  content = λ s. s;
  writes = λ b s h. (min 2 (length b), refl, omega arith, omega arith, refl);
  flushes = λ s. (refl, refl);
}

-- Every value is a dict, and is written as the bytes that stand for it.
abbrev plain_json : JsonCodec
plain_json = record {
  Value = List ℕ;
  is_dict = λ v. true;
  dumps = λ v. some v;
  loads = λ b. some b;
}

run_of_two : read_exact byte_source 2 (5 ∷ 6 ∷ 7 ∷ []) ≡ (ok (5 ∷ 6 ∷ []), 7 ∷ [])
unfolding read_exact
run_of_two = refl

read_exact-length_example : length {A = ℕ} (5 ∷ 6 ∷ []) ≡ 2
read_exact-length_example =
    read_exact-length byte_source 2 (5 ∷ 6 ∷ 7 ∷ []) (7 ∷ []) (5 ∷ 6 ∷ []) run_of_two

read_frame-write_frame_example :
    (s' : List ℕ) × (write_frame plain_json pair_sink (5 ∷ []) (6 ∷ 7 ∷ []) [] ≡ (ok tt, s'))
    × ((t : List ℕ)
        → t ≡ s' ++ (8 ∷ [])
        → (t' : List ℕ) × (read_frame plain_json byte_source (pos 10) (pos 20) t
            ≡ (ok (5 ∷ [], 6 ∷ 7 ∷ []), t'))
          × (t' ≡ 8 ∷ []))
read_frame-write_frame_example =
    read_frame-write_frame plain_json pair_sink byte_source pair_sink-IsFaithfulSink
      byte_source-IsFaithfulSource (5 ∷ []) (5 ∷ []) (6 ∷ 7 ∷ []) [] (8 ∷ []) 10 20 [] refl refl
      refl (omega arith) (omega arith) (omega arith) (omega arith) refl
