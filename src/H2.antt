-- ===== src/H2.antt =====
-- tools/fingerprint/h2.py: the client preface and its frames, SETTINGS and WINDOW_UPDATE.
pub mod Encode
pub mod RoundTrip
pub mod Total
pub mod Control
use foxreq.Prelude.{
  ℕ, zero, suc, ◌+◌, ◌-◌, ◌%◌, List, [], ◌∷◌, ◌++◌, Bool, true, false, ltb, ◌==◌, not, ◌||◌,
  if◌then◌else◌, pos, bit_and,
}
use foxreq.Prelude.Lists
use foxreq.Prelude.Lists.{length, contains}
use foxreq.Prelude.Bytes.{from_big}
use foxreq.Prelude.Result.{Result, ok, err}
use foxreq.Prelude.Text.{text, Text, text_eq}
use foxreq.Binary.{
  Parser, Message, Fault, reader, pure, raise, ◌>>=◌, ◌>>◌, result_of, get_offset, take, u8, u16,
  u24, uint, finish, while_remaining,
}
use foxreq.Tls.{raise_if}
use foxreq.Model.{H2Frame, Setting}

-- b"PRI * HTTP/2.0\r\n\r\nSM\r\n\r\n"
abbrev pub client_preface : List ℕ
client_preface =
    text "PRI * HTTP/2.0" ++ (13 ∷ 10 ∷ 13 ∷ 10 ∷ (text "SM" ++ (13 ∷ 10 ∷ 13 ∷ 10 ∷ [])))

abbrev pub settings_frame_type : ℕ
settings_frame_type = 4

abbrev pub window_update_frame_type : ℕ
window_update_frame_type = 8

abbrev pub ack_flag : ℕ
ack_flag = 1

-- `bool(n)`
abbrev pub truth : ℕ → Bool
truth n = not (n == 0)

unfoldable pub frame_round : List H2Frame → Parser (List H2Frame)
frame_round frames = do
  frame_offset ← get_offset
  length ← u24
  type_id ← u8
  flags ← u8
  raw_stream_id ← uint 4
  raise_if (truth (bit_and raw_stream_id 0x80000000)) Message.reserved_stream_bit (frame_offset + 5)
      (text "http2.frame.stream_id")
  payload ← take (pos length)
  pure (
      frames
      ++ (record {
        length = length;
        type_id = type_id;
        flags = flags;
        stream_id = raw_stream_id;
        payload = payload;
      }
          ∷ []))

unfoldable pub read_frames : Parser (List H2Frame)
unfolding frame_round
read_frames = do frames ← while_remaining frame_round []; finish; pure frames

-- A raise that no reader takes part in.
abbrev pub fail {ℓ} : {A : Type ℓ} → Message → ℕ → Text → Result Fault A
fail message at path = err (Fault.raised (record { message = message; offset = at; path = path }))

unfoldable pub lacks_preface : List ℕ → Bool
lacks_preface bytes =
    ltb (length bytes) (length client_preface)
    || not (text_eq (Lists.take (length client_preface) bytes) client_preface)

unfoldable pub parse_client_prefix : List ℕ → Result Fault (List H2Frame)
unfolding read_frames raise raise_if lacks_preface
parse_client_prefix bytes =
    if lacks_preface bytes
    then fail Message.invalid_preface 0 (text "http2.client_prefix")
    else result_of (
        read_frames (
          reader (Lists.drop (length client_preface) bytes) (length client_preface)
            (text "http2.frames")))

-- The loop's variables: `values` and the set `seen`.
pub record Settings : Type 0 where
  pub values : List Setting
  pub seen : List ℕ

unfoldable pub setting_round : Settings → Parser Settings
setting_round s = do
  identifier_offset ← get_offset
  identifier ← u16
  value ← uint 4
  raise_if (contains identifier s.seen) (Message.duplicate_setting identifier) identifier_offset
      (text "http2.settings")
  pure (record {
    values = s.values ++ (record { identifier = identifier; value = value } ∷ []);
    seen = identifier ∷ s.seen;
  })

unfoldable pub read_settings : Parser (List Setting)
unfolding setting_round
read_settings = do
  s ← while_remaining setting_round (record { values = []; seen = [] })
  finish
  pure s.values

unfoldable pub decode_settings : H2Frame → Result Fault (List Setting)
unfolding read_settings raise_if
decode_settings frame =
    if not (frame.type_id == settings_frame_type) || not (frame.stream_id == 0)
    then fail Message.invalid_settings_frame 0 (text "http2.settings")
    else if truth (bit_and frame.flags ack_flag)
    then (if truth frame.length
        then fail Message.settings_ack_not_empty 0 (text "http2.settings")
        else ok [])
    else if truth (frame.length % 6)
    then fail Message.invalid_settings_length 0 (text "http2.settings")
    else result_of (read_settings (reader frame.payload 0 (text "http2.settings")))

unfoldable pub decode_window_update : H2Frame → Result Fault ℕ
decode_window_update frame =
    if not (frame.type_id == window_update_frame_type) || not (frame.length == 4)
    then fail Message.invalid_window_update 0 (text "http2.window_update")
    else let raw = from_big frame.payload in
      let increment = bit_and raw 0x7FFFFFFF in
      if truth (bit_and raw 0x80000000) || increment == 0
      then fail Message.invalid_window_increment 0 (text "http2.window_update")
      else ok increment
