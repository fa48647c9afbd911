-- ===== src/H2/RoundTrip.antt =====
-- h2.py: a client prefix and a SETTINGS payload are read back from their bytes.
use foxreq.Prelude.{
  ℕ, ◌*◌, ◌%◌, ◌<◌, ◌≡◌, refl, sym, subst, ap, ◌∙◌, List, [], ◌∷◌, ◌++◌, map, true, false, ==_iff,
  le→ltb, append-nil, append_assoc, arith, pos, bit_and,
}
use foxreq.Prelude.Lists.{length, length-append, All, contains}
use foxreq.Prelude.Bits.{bit_and_bit, bit_and-one}
use foxreq.Prelude.Bytes.{to_big, length-to_big}
use foxreq.Prelude.Text.{text}
use foxreq.Prelude.Result.{ok}
use foxreq.Binary.{pure, ◌>>◌, reader, result_of, u8, u16, u24, uint, take, while_remaining, finish}
use foxreq.Binary.Reads.{
  Reads, ReadsEnd, Rounds, done, round, bind-Reads, then-Reads, map-Reads, pure-Reads, offset-Reads,
  while_remaining-ReadsEnd, then-ReadsEnd, finish-ReadsEnd, Reads-ReadsEnd, take-Reads,
}
use foxreq.Binary.Fields.{u8-Reads, u16-Reads, u24-Reads, uint-Reads}
use foxreq.Model.{H2Frame, Setting}
use foxreq.Tls.Encode.{Distinct}
use foxreq.Tls.Parts.{raise_if-Reads}
use foxreq.H2.{
  client_preface, truth, lacks_preface, frame_round, read_frames, parse_client_prefix, Settings,
  setting_round, read_settings, decode_settings,
}
use foxreq.H2.Encode.{
  frame_bytes, frame_list, IsFrame, setting_bytes, setting_list, IsSetting, identifiers,
}

pub truth_zero : (n : ℕ) → n ≡ 0 → truth n ≡ false
truth_zero n h = ground arith

pub truth_pos : (n : ℕ) → 0 < n → truth n ≡ true
truth_pos n h = ground arith

-- The reserved bit of a number below 2 ^ 31 is clear.
reserved_clear : (n : ℕ) → n < 2147483648 → truth (bit_and n 0x80000000) ≡ false
reserved_clear n h = truth_zero (bit_and n 0x80000000) (omega (arith, bit_and_bit 31 n))

appended : List H2Frame → H2Frame → List H2Frame
appended frames f = frames ++ (f ∷ [])

frame_round-Reads :
    (frames : List H2Frame) (f : H2Frame)
    → IsFrame f
    → Reads (frame_round frames) (frame_bytes f) (frames ++ (f ∷ []))
unfolding frame_round
frame_round-Reads frames f v = offset-Reads _ _ _ λ frame_offset.
    bind-Reads u24 _ (to_big 3 f.length) _ f.length _ (u24-Reads f.length v.size_fits) (
      bind-Reads u8 _ (to_big 1 f.type_id) _ f.type_id _ (u8-Reads f.type_id v.type_fits) (
        bind-Reads u8 _ (to_big 1 f.flags) _ f.flags _ (u8-Reads f.flags v.flags_fit) (
          bind-Reads (uint 4) _ (to_big 4 f.stream_id) _ f.stream_id _
            (uint-Reads 4 f.stream_id (omega (arith, v.stream_fits)))
            (raise_if-Reads _ _ _ _ _ f.payload _ (reserved_clear f.stream_id v.stream_fits) (
              map-Reads (take (pos f.length))
                (λ payload. frames ++ (record f { payload = payload } ∷ [])) f.payload f.payload
                (take-Reads f.payload f.length v.size))))))

pub frame-Rounds :
    (acc fs : List H2Frame)
    → All IsFrame fs
    → Rounds frame_round acc (map frame_bytes fs) (acc ++ fs)
frame-Rounds acc [] h = subst (Rounds frame_round acc []) (sym (append-nil acc)) done
frame-Rounds acc (f ∷ fs) h =
    round (frame_bytes f)
      (omega (
        arith,
        length-append (to_big 3 f.length)
            (to_big 1 f.type_id ++ (to_big 1 f.flags ++ (to_big 4 f.stream_id ++ f.payload))),
        length-to_big 3 f.length,
      ))
      (frame_round-Reads acc f h.0)
      (subst (Rounds frame_round (acc ++ (f ∷ [])) (map frame_bytes fs))
        (append_assoc acc (f ∷ []) fs) (frame-Rounds (acc ++ (f ∷ [])) fs h.1))

-- `finish()` and `return`, at the end of the input.
finishing {ℓ} : {A : Type ℓ} (a : A) → ReadsEnd (finish >> pure a) [] a
finishing a =
    then-ReadsEnd finish _ [] tt a finish-ReadsEnd (Reads-ReadsEnd (pure a) [] a (pure-Reads a))

read_frames-ReadsEnd :
    (fs : List H2Frame) → All IsFrame fs → ReadsEnd read_frames (frame_list fs) fs
unfolding read_frames
read_frames-ReadsEnd fs h =
    then-ReadsEnd (while_remaining frame_round []) (λ frames. finish >> pure frames) (frame_list fs)
      fs fs (while_remaining-ReadsEnd frame_round (frame-Rounds [] fs h)) (finishing fs)

pub lacks_preface-client_preface : (xs : List ℕ) → lacks_preface (client_preface ++ xs) ≡ false
unfolding lacks_preface
lacks_preface-client_preface xs = rw (le→ltb (length (client_preface ++ xs)) 24 (omega arith))

-- The client preface followed by frames whose lengths and fields fit the wire and whose reserved
-- bits are clear is read back as those frames, in order.
pub parse_client_prefix-frame_list :
    (fs : List H2Frame)
    → All IsFrame fs
    → parse_client_prefix (client_preface ++ frame_list fs) ≡ ok fs
unfolding parse_client_prefix reader
parse_client_prefix-frame_list fs h =
    rw (lacks_preface-client_preface (frame_list fs))
      (ap result_of (read_frames-ReadsEnd fs h [] 24 (text "http2.frames")))

setting_round-Reads :
    (s : Settings) (x : Setting)
    → IsSetting x
    → contains x.identifier s.seen ≡ false
    → Reads
        (setting_round s)
        (setting_bytes x)
        (record { values = s.values ++ (x ∷ []); seen = x.identifier ∷ s.seen })
unfolding setting_round
setting_round-Reads s x v fresh = offset-Reads _ _ _ λ at.
    bind-Reads u16 _ (to_big 2 x.identifier) (to_big 4 x.value) x.identifier _
      (u16-Reads x.identifier v.identifier_fits)
      (then-Reads (uint 4) _ (to_big 4 x.value) x.value _ (uint-Reads 4 x.value v.value_fits)
        (raise_if-Reads _ _ _ _ _ [] _ fresh (pure-Reads _)))

-- The set `seen` after more identifiers.
abbrev pub seen_after : List ℕ → List ℕ → List ℕ
seen_after seen [] = seen
seen_after seen (x ∷ xs) = seen_after (x ∷ seen) xs

pub setting-Rounds :
    (s : Settings) (xs : List Setting)
    → All IsSetting xs
    → Distinct s.seen (identifiers xs)
    → Rounds setting_round s
        (map setting_bytes xs)
        (record { values = s.values ++ xs; seen = seen_after s.seen (identifiers xs) })
setting-Rounds s [] h d =
    subst (λ values. Rounds setting_round s [] (record { values = values; seen = s.seen }))
      (sym (append-nil s.values)) done
setting-Rounds s (x ∷ xs) h d =
    let t : Settings = record { values = s.values ++ (x ∷ []); seen = x.identifier ∷ s.seen } in
    let seen = seen_after t.seen (identifiers xs) in
    round (setting_bytes x)
      (omega (
        arith,
        length-append (to_big 2 x.identifier) (to_big 4 x.value),
        length-to_big 2 x.identifier,
      ))
      (setting_round-Reads s x h.0 d.0)
      (subst
        (λ values.
          Rounds setting_round t (map setting_bytes xs) (record { values = values; seen = seen }))
        (append_assoc s.values (x ∷ []) xs) (setting-Rounds t xs h.1 d.1))

read_settings-ReadsEnd :
    (xs : List Setting)
    → All IsSetting xs
    → Distinct [] (identifiers xs)
    → ReadsEnd read_settings (setting_list xs) xs
unfolding read_settings
read_settings-ReadsEnd xs h d =
    then-ReadsEnd (while_remaining setting_round _) _ (setting_list xs) _ xs
      (while_remaining-ReadsEnd setting_round
        (setting-Rounds (record { values = []; seen = [] }) xs h d))
      (finishing xs)

pub length-setting_list : (xs : List Setting) → length (setting_list xs) ≡ 6 * length xs
length-setting_list [] = refl
length-setting_list (x ∷ xs) = omega (
  arith,
  length-append (setting_bytes x) (setting_list xs),
  length-append (to_big 2 x.identifier) (to_big 4 x.value),
  length-to_big 2 x.identifier,
  length-to_big 4 x.value,
  length-setting_list xs,
)

-- A SETTINGS frame on stream 0 without the ACK flag, whose payload holds settings with distinct
-- identifiers, is decoded to those settings in order.
pub decode_settings-setting_list :
    (f : H2Frame) (xs : List Setting)
    → f.type_id ≡ 4
    → f.stream_id ≡ 0
    → f.flags % 2 ≡ 0
    → f.payload ≡ setting_list xs
    → f.length ≡ length f.payload
    → All IsSetting xs
    → Distinct [] (identifiers xs)
    → decode_settings f ≡ ok xs
unfolding decode_settings reader
decode_settings-setting_list f xs type stream no_ack body size h d =
    rw
      (
        (==_iff f.type_id 4).1 type,
        (==_iff f.stream_id 0).1 stream,
        truth_zero (bit_and f.flags 1) (bit_and-one f.flags ∙ no_ack),
        truth_zero (f.length % 6) (omega (arith, ap length body, length-setting_list xs)),
        body,
      )
      (ap result_of (read_settings-ReadsEnd xs h d [] 0 (text "http2.settings")))
