-- ===== src/H2/Control.antt =====
-- h2.py: WINDOW_UPDATE in plain arithmetic, and the frames and settings that are refused.
use foxreq.Prelude.{
  ℕ, ◌+◌, ◌*◌, ◌%◌, ◌≤◌, ◌<◌, ◌≡◌, refl, ap, ◌∙◌, List, [], ◌∷◌, ◌++◌, true, ◌==◌, ==_iff, ltb,
  ◌&&◌, arith, bit_and, Bool-cases, inl, inr, if◌then◌else◌,
}
use foxreq.Prelude.Lists.{length, length-append, All, contains}
use foxreq.Prelude.Bits.{bit_and_bit, bit_and_low, bit_and-one}
use foxreq.Prelude.Bytes.{to_big, length-to_big, from_big-to_big}
use foxreq.Prelude.Text.{text}
use foxreq.Prelude.Result.{ok, err}
use foxreq.Binary.{
  reserved_stream_bit, duplicate_setting, invalid_window_increment, pure, ◌>>◌, reader, result_of,
  u8, u16, u24, uint, while_remaining, finish,
}
use foxreq.Binary.Failures.{
  Fails, error, bind-Fails, then-Fails, first-Fails, offset-Fails, while_remaining-Fails,
}
use foxreq.Binary.Fields.{u8-Reads, u16-Reads, u24-Reads, uint-Reads}
use foxreq.Model.{H2Frame, Setting}
use foxreq.Tls.Encode.{Distinct}
use foxreq.Tls.Parts.{raise_if-Fails}
use foxreq.H2.{
  client_preface, truth, fail, frame_round, read_frames, parse_client_prefix, Settings,
  setting_round, read_settings, decode_settings, decode_window_update,
}
use foxreq.H2.Encode.{frame_list, IsFrame, setting_bytes, setting_list, IsSetting, identifiers}
use foxreq.H2.RoundTrip.{
  truth_zero, truth_pos, frame-Rounds, lacks_preface-client_preface, setting-Rounds, seen_after,
  length-setting_list,
}

-- A WINDOW_UPDATE frame of four bytes yields its number exactly where that lies from 1 to
-- 2 ^ 31 - 1; zero and a set reserved bit are refused.
pub decode_window_update_lem :
    (f : H2Frame) (raw : ℕ)
    → f.type_id ≡ 8
    → f.length ≡ 4
    → f.payload ≡ to_big 4 raw
    → raw < 4294967296
    → decode_window_update f ≡ (
        if ltb 0 raw && ltb raw 2147483648
        then ok raw
        else fail invalid_window_increment 0 (text "http2.window_update"))
unfolding decode_window_update
decode_window_update_lem f raw type size body fits =
    rw
      (
        (==_iff f.type_id 8).1 type,
        (==_iff f.length 4).1 size,
        body,
        from_big-to_big 4 raw (omega arith),
      )
      (ground (arith, bit_and_bit 31 raw, bit_and_low 31 raw))

reserved_set : (n : ℕ) → 2147483648 ≤ n → n < 4294967296 → truth (bit_and n 0x80000000) ≡ true
reserved_set n low high = truth_pos (bit_and n 0x80000000) (omega (arith, bit_and_bit 31 n))

abbrev pub frame_head : H2Frame → List ℕ
frame_head f =
    to_big 3 f.length ++ (to_big 1 f.type_id ++ (to_big 1 f.flags ++ to_big 4 f.stream_id))

frame_round-Fails :
    (frames : List H2Frame) (f : H2Frame) (o : ℕ)
    → f.length < 16777216
    → f.type_id < 256
    → f.flags < 256
    → 2147483648 ≤ f.stream_id
    → f.stream_id < 4294967296
    → Fails
        (frame_round frames)
        o
        (frame_head f)
        (error reserved_stream_bit (o + 5) (text "http2.frame.stream_id"))
unfolding frame_round
frame_round-Fails frames f o hl ht hf low high = offset-Fails _ o _ _ (
    bind-Fails u24 _ o (to_big 3 f.length) _ f.length _ (u24-Reads f.length hl) (
      bind-Fails u8 _ _ (to_big 1 f.type_id) _ f.type_id _ (u8-Reads f.type_id ht) (
        bind-Fails u8 _ _ (to_big 1 f.flags) _ f.flags _ (u8-Reads f.flags hf) (
          then-Fails (uint 4) _ _ (to_big 4 f.stream_id) f.stream_id _
            (uint-Reads 4 f.stream_id (omega arith))
            (raise_if-Fails _ _ _ _ _ _ (reserved_set f.stream_id low high))))))

-- A frame whose reserved stream bit is set is refused, at the byte of that bit, however good the
-- frames before it and whatever stands behind its header.
pub parse_client_prefix_reserved :
    (fs : List H2Frame) (f : H2Frame) (rest : List ℕ)
    → All IsFrame fs
    → f.length < 16777216
    → f.type_id < 256
    → f.flags < 256
    → 2147483648 ≤ f.stream_id
    → f.stream_id < 4294967296
    → parse_client_prefix (client_preface ++ ((frame_list fs ++ frame_head f) ++ rest))
      ≡ err (
          error reserved_stream_bit
            (24 + length (frame_list fs) + 5)
            (text "http2.frame.stream_id"))
unfolding parse_client_prefix read_frames reader
parse_client_prefix_reserved fs f rest hfs hl ht hf low high =
    rw (lacks_preface-client_preface ((frame_list fs ++ frame_head f) ++ rest)) (
      ap result_of (
        first-Fails (while_remaining frame_round []) (λ frames. finish >> pure frames) 24 _ _
          (while_remaining-Fails frame_round 24 (frame_head f) _ (frame-Rounds [] fs hfs)
            (omega (
              arith,
              length-append (to_big 3 f.length)
                  (to_big 1 f.type_id ++ (to_big 1 f.flags ++ to_big 4 f.stream_id)),
              length-to_big 3 f.length,
            ))
            (frame_round-Fails fs f (24 + length (frame_list fs)) hl ht hf low high))
          [] rest 24 (text "http2.frames") refl))

setting_round-Fails :
    (s : Settings) (x : Setting) (o : ℕ)
    → IsSetting x
    → contains x.identifier s.seen ≡ true
    → Fails
        (setting_round s)
        o
        (setting_bytes x)
        (error (duplicate_setting x.identifier) o (text "http2.settings"))
unfolding setting_round
setting_round-Fails s x o v again = offset-Fails _ o _ _ (
    bind-Fails u16 _ o (to_big 2 x.identifier) _ x.identifier _
      (u16-Reads x.identifier v.identifier_fits)
      (then-Fails (uint 4) _ _ (to_big 4 x.value) x.value _ (uint-Reads 4 x.value v.value_fits)
        (raise_if-Fails _ _ _ _ _ _ again)))

contains-seen_after_old :
    (y : ℕ) (seen xs : List ℕ) → contains y seen ≡ true → contains y (seen_after seen xs) ≡ true
contains-seen_after_old y seen [] h = h
contains-seen_after_old y seen (x ∷ xs) h = contains-seen_after_old y (x ∷ seen) xs (ground arith)

contains-seen_after :
    (y : ℕ) (seen xs : List ℕ) → contains y xs ≡ true → contains y (seen_after seen xs) ≡ true
contains-seen_after y seen [] h = absurd (cc)
contains-seen_after y seen (x ∷ xs) h = elim (Bool-cases (y == x)) [
  | inl same ↦ contains-seen_after_old y (x ∷ seen) xs (ground arith)
  | inr other ↦ contains-seen_after y (x ∷ seen) xs (ground arith)
]

-- A SETTINGS payload in which an identifier comes a second time is refused at the offset of that
-- entry, with its identifier in the message, whatever entries follow.
pub decode_settings_duplicate :
    (f : H2Frame) (xs ys : List Setting) (x : Setting)
    → f.type_id ≡ 4
    → f.stream_id ≡ 0
    → f.flags % 2 ≡ 0
    → f.payload ≡ (setting_list xs ++ setting_bytes x) ++ setting_list ys
    → f.length ≡ length f.payload
    → All IsSetting xs
    → IsSetting x
    → Distinct [] (identifiers xs)
    → contains x.identifier (identifiers xs) ≡ true
    → decode_settings f
      ≡ err (error (duplicate_setting x.identifier) (6 * length xs) (text "http2.settings"))
unfolding decode_settings read_settings reader
decode_settings_duplicate f xs ys x type stream no_ack body size h hx d again =
    rw
      (
        (==_iff f.type_id 4).1 type,
        (==_iff f.stream_id 0).1 stream,
        truth_zero (bit_and f.flags 1) (bit_and-one f.flags ∙ no_ack),
        truth_zero (f.length % 6) (
            omega (
              arith,
              ap length body,
              length-append (setting_list xs ++ setting_bytes x) (setting_list ys),
              length-append (setting_list xs) (setting_bytes x),
              length-append (to_big 2 x.identifier) (to_big 4 x.value),
              length-to_big 2 x.identifier,
              length-to_big 4 x.value,
              length-setting_list xs,
              length-setting_list ys,
            )),
        body,
      )
      (ap result_of (
          first-Fails (while_remaining setting_round start) (λ s. finish >> pure s.values) 0 _ _
            (while_remaining-Fails setting_round 0 (setting_bytes x) _ (setting-Rounds start xs h d)
              (omega (
                arith,
                length-append (to_big 2 x.identifier) (to_big 4 x.value),
                length-to_big 2 x.identifier,
              ))
              (setting_round-Fails _ x _ hx
                (contains-seen_after x.identifier [] (identifiers xs) again)))
            [] (setting_list ys) 0 (text "http2.settings") refl)
        ∙ ap (λ n. err (error (duplicate_setting x.identifier) n (text "http2.settings")))
            {x = 0 + length (setting_list xs)} (omega (arith, length-setting_list xs)))
  where
    start : Settings
    start = record { values = []; seen = [] }
