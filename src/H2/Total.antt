-- ===== src/H2/Total.antt =====
-- h2.py ends on every input: no loop of the parsers runs out of its rounds.
use foxreq.Prelude.{ℕ, ◌+◌, ◌≢◌, List, [], pos, Bool-cases, inl, inr, arith}
use foxreq.Prelude.Result.{err}
use foxreq.Prelude.Text.{text}
use foxreq.Binary.{
  out_of_fuel, reader, u8, u16, u24, uint, take, get_offset, while_remaining, finish,
}
use foxreq.Binary.Halts.{
  Halts, Takes, pure-Halts, pure-Takes, bind-Halts, bind-Takes, take-Halts, take-Takes,
  get_offset-Halts, get_offset-Takes, finish-Halts, u8-Halts, u8-Takes, u16-Halts, u16-Takes,
  u24-Halts, u24-Takes, uint-Halts, uint-Takes, while_remaining-Halts, weaken, progress,
}
use foxreq.Model.{H2Frame}
use foxreq.Tls.{raise_if}
use foxreq.Tls.Total.{raise_if-Halts, raise_if-Takes, result_of-ne}
use foxreq.H2.{
  lacks_preface, frame_round, read_frames, parse_client_prefix, Settings, setting_round,
  read_settings, decode_settings,
}

frame_round-Halts : (frames : List H2Frame) → Halts (frame_round frames)
unfolding frame_round
frame_round-Halts frames = bind-Halts get_offset _ get_offset-Halts λ at.
    bind-Halts u24 _ u24-Halts λ size. bind-Halts u8 _ u8-Halts λ type_id.
      bind-Halts u8 _ u8-Halts λ flags. bind-Halts (uint 4) _ (uint-Halts 4) λ stream.
        bind-Halts (raise_if _ _ _ _) _ (raise_if-Halts _ _ _ _)
          λ u. bind-Halts (take (pos size)) _ (take-Halts size) λ payload. pure-Halts _

frame_round-Takes : (frames : List H2Frame) → Takes 1 (frame_round frames)
unfolding frame_round
frame_round-Takes frames = progress _ 8 (
    bind-Takes get_offset _ 0 9 get_offset-Takes λ at. bind-Takes u24 _ 3 6 u24-Takes λ size.
      bind-Takes u8 _ 1 5 u8-Takes λ type_id. bind-Takes u8 _ 1 4 u8-Takes λ flags.
        bind-Takes (uint 4) _ 4 0 (uint-Takes 4) λ stream.
          bind-Takes (raise_if _ _ _ _) _ 0 0 (raise_if-Takes _ _ _ _) λ u.
            weaken _ (size + 0)
              (bind-Takes (take (pos size)) _ size 0 (take-Takes size) λ payload. pure-Takes _))

read_frames-Halts : Halts read_frames
unfolding read_frames
read_frames-Halts =
    bind-Halts (while_remaining frame_round []) _
      (while_remaining-Halts frame_round frame_round-Halts frame_round-Takes [])
      λ frames. bind-Halts finish _ finish-Halts λ u. pure-Halts frames

-- Parsing a client prefix ends on every input, with frames or a `ParseError`.
pub parse_client_prefix-ne-out_of_fuel :
    (bytes : List ℕ) → parse_client_prefix bytes ≢ err out_of_fuel
unfolding parse_client_prefix
parse_client_prefix-ne-out_of_fuel bytes = elim (Bool-cases (lacks_preface bytes)) [
  | inl bad ↦ rw bad (λ e. ground arith)
  | inr good ↦ rw good (result_of-ne read_frames _ read_frames-Halts)
]

setting_round-Halts : (s : Settings) → Halts (setting_round s)
unfolding setting_round
setting_round-Halts s = bind-Halts get_offset _ get_offset-Halts λ at.
    bind-Halts u16 _ u16-Halts λ identifier.
      bind-Halts (uint 4) _ (uint-Halts 4)
        λ value. bind-Halts (raise_if _ _ _ _) _ (raise_if-Halts _ _ _ _) λ u. pure-Halts _

setting_round-Takes : (s : Settings) → Takes 1 (setting_round s)
unfolding setting_round
setting_round-Takes s = progress _ 5 (
    bind-Takes get_offset _ 0 6 get_offset-Takes λ at. bind-Takes u16 _ 2 4 u16-Takes λ identifier.
      bind-Takes (uint 4) _ 4 0 (uint-Takes 4)
        λ value. bind-Takes (raise_if _ _ _ _) _ 0 0 (raise_if-Takes _ _ _ _) λ u. pure-Takes _)

read_settings-Halts : Halts read_settings
unfolding read_settings
read_settings-Halts =
    bind-Halts (while_remaining setting_round _) _
      (while_remaining-Halts setting_round setting_round-Halts setting_round-Takes _)
      λ s. bind-Halts finish _ finish-Halts λ u. pure-Halts s.values

-- Decoding a SETTINGS frame ends on every frame, with settings or a `ParseError`.
pub decode_settings-ne-out_of_fuel : (f : H2Frame) → decode_settings f ≢ err out_of_fuel
unfolding decode_settings
decode_settings-ne-out_of_fuel f = ground (
  arith,
  result_of-ne read_settings (reader f.payload 0 (text "http2.settings")) read_settings-Halts,
)
