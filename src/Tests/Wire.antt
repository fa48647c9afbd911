-- ===== src/Tests/Wire.antt =====
-- tools/fingerprint: small messages for the parsers.
use foxreq.Prelude.{
  ℕ, ◌+◌, ◌*◌, ◌≡◌, ◌≢◌, refl, List, [], ◌∷◌, ◌++◌, true, arith, if◌then◌else◌, ltb, ◌&&◌,
}
use foxreq.Prelude.Lists.{length}
use foxreq.Prelude.Bytes.{to_big}
use foxreq.Prelude.Result.{ok, err}
use foxreq.Prelude.Text.{text}
use foxreq.Binary.{out_of_fuel, reserved_stream_bit, duplicate_setting, invalid_window_increment}
use foxreq.Binary.Failures.{error}
use foxreq.Model.{ClientHello, H2Frame, Setting}
use foxreq.Tls.{parse_client_hello_records}
use foxreq.Tls.Encode.{TlsRecord, record_list, IsHello}
use foxreq.Tls.RoundTrip.{parse_client_hello_records-record_list}
use foxreq.Tls.Total.{parse_client_hello_records-ne-out_of_fuel}
use foxreq.H2.{client_preface, fail, parse_client_prefix, decode_settings, decode_window_update}
use foxreq.H2.Encode.{frame_list, setting_list, setting_bytes}
use foxreq.H2.RoundTrip.{parse_client_prefix-frame_list, decode_settings-setting_list}
use foxreq.H2.Control.{
  decode_window_update_lem, parse_client_prefix_reserved, frame_head, decode_settings_duplicate,
}
use foxreq.H2.Total.{parse_client_prefix-ne-out_of_fuel, decode_settings-ne-out_of_fuel}

abbrev random_bytes : List ℕ
random_bytes =
    1 ∷ 2 ∷ 3 ∷ 4 ∷ 5 ∷ 6 ∷ 7 ∷ 8 ∷ 9 ∷ 10 ∷ 11 ∷ 12 ∷ 13 ∷ 14 ∷ 15 ∷ 16 ∷ 17 ∷ 18 ∷ 19 ∷ 20 ∷ 21
    ∷ 22 ∷ 23 ∷ 24 ∷ 25 ∷ 26 ∷ 27 ∷ 28 ∷ 29 ∷ 30 ∷ 31 ∷ 32 ∷ []

abbrev small_hello : ClientHello
small_hello = record {
  legacy_version = 0x0303;
  random = random_bytes;
  session_id = 9 ∷ [];
  cipher_suites = 0x1301 ∷ 0x0a0a ∷ [];
  compression_methods = 0 ∷ [];
  extensions =
      record { type_id = 10; payload = 0 ∷ 2 ∷ 0 ∷ 29 ∷ [] }
      ∷ record { type_id = 43; payload = [] }
      ∷ [];
}

small_hello-IsHello : IsHello true small_hello
unfolding to_big
small_hello-IsHello = record {
  version = omega arith;
  random = refl;
  session = omega arith;
  suites = omega arith;
  suites_some = omega arith;
  suites_fit = omega arith;
  methods_some = omega arith;
  methods_fit = omega arith;
  extensions = omega arith;
  distinct = (refl, (refl, tt));
  block_fits = omega arith;
  body_fits = omega arith;
  no_block = λ e. absurd (cc);
}

abbrev two_records : List TlsRecord
two_records =
    record { version = 0x0301; payload = 1 ∷ 0 ∷ 0 ∷ [] }
    ∷ record {
      version = 0x0301;
      payload =
          58
          ∷ 3
          ∷ 3
          ∷ (random_bytes
              ++ (1 ∷ 9 ∷ 0 ∷ 4 ∷ 0x13 ∷ 1 ∷ 10 ∷ 10 ∷ 1 ∷ 0 ∷ 0 ∷ 12 ∷ 0 ∷ 10 ∷ 0 ∷ 4 ∷ 0 ∷ 2 ∷ 0
                  ∷ 29 ∷ 0 ∷ 43 ∷ 0 ∷ 0 ∷ []));
    }
    ∷ []

parse_client_hello_records-record_list_example :
    parse_client_hello_records (record_list two_records) ≡ ok small_hello
parse_client_hello_records-record_list_example =
    parse_client_hello_records-record_list true small_hello two_records small_hello-IsHello
      (omega arith) (unfold to_big in refl)

abbrev ping : H2Frame
ping = record { length = 1; type_id = 6; flags = 0; stream_id = 0; payload = 7 ∷ [] }

abbrev reserved : H2Frame
reserved = record { length = 1; type_id = 6; flags = 0; stream_id = 0x80000001; payload = 7 ∷ [] }

parse_client_prefix-frame_list_example :
    parse_client_prefix (client_preface ++ frame_list (ping ∷ [])) ≡ ok (ping ∷ [])
parse_client_prefix-frame_list_example = parse_client_prefix-frame_list (ping ∷ []) (
  record {
    size = refl;
    size_fits = omega arith;
    type_fits = omega arith;
    flags_fit = omega arith;
    stream_fits = omega arith;
  },
  tt,
)

parse_client_prefix_reserved_example :
    parse_client_prefix (client_preface ++ ((frame_list [] ++ frame_head reserved) ++ (7 ∷ [])))
    ≡ err
        (error reserved_stream_bit (24 + length (frame_list []) + 5) (text "http2.frame.stream_id"))
parse_client_prefix_reserved_example =
    parse_client_prefix_reserved [] reserved (7 ∷ []) tt (omega arith) (omega arith) (omega arith)
      (omega arith) (omega arith)

abbrev table_size : Setting
table_size = record { identifier = 1; value = 65536 }

abbrev settings_frame : List ℕ → H2Frame
settings_frame payload = record {
  length = length payload;
  type_id = 4;
  flags = 0;
  stream_id = 0;
  payload = payload;
}

decode_settings-setting_list_example :
    decode_settings (settings_frame (setting_list (table_size ∷ []))) ≡ ok (table_size ∷ [])
decode_settings-setting_list_example =
    decode_settings-setting_list (settings_frame (setting_list (table_size ∷ []))) (table_size ∷ [])
      refl refl (omega arith) refl refl
      (record { identifier_fits = omega arith; value_fits = omega arith }, tt) (refl, tt)

abbrev twice : List ℕ
twice = (setting_list (table_size ∷ []) ++ setting_bytes table_size) ++ setting_list []

decode_settings_duplicate_example :
    decode_settings (settings_frame twice)
    ≡ err (error (duplicate_setting 1) (6 * 1) (text "http2.settings"))
decode_settings_duplicate_example =
    decode_settings_duplicate (settings_frame twice) (table_size ∷ []) [] table_size refl refl
      (omega arith) refl refl
      (record { identifier_fits = omega arith; value_fits = omega arith }, tt)
      (record { identifier_fits = omega arith; value_fits = omega arith }) (refl, tt) refl

abbrev update_frame : H2Frame
update_frame = record {
  length = 4;
  type_id = 8;
  flags = 0;
  stream_id = 0;
  payload = to_big 4 12517377;
}

decode_window_update_lem_example : decode_window_update update_frame ≡ (
    if ltb 0 12517377 && ltb 12517377 2147483648
    then ok 12517377
    else fail invalid_window_increment 0 (text "http2.window_update"))
decode_window_update_lem_example =
    decode_window_update_lem update_frame 12517377 refl refl refl (omega arith)

parse_client_hello_records-ne-out_of_fuel_example :
    parse_client_hello_records (22 ∷ 3 ∷ []) ≢ err out_of_fuel
parse_client_hello_records-ne-out_of_fuel_example =
    parse_client_hello_records-ne-out_of_fuel (22 ∷ 3 ∷ [])

parse_client_prefix-ne-out_of_fuel_example : parse_client_prefix (80 ∷ []) ≢ err out_of_fuel
parse_client_prefix-ne-out_of_fuel_example = parse_client_prefix-ne-out_of_fuel (80 ∷ [])

decode_settings-ne-out_of_fuel_example : decode_settings (settings_frame (0 ∷ [])) ≢ err out_of_fuel
decode_settings-ne-out_of_fuel_example = decode_settings-ne-out_of_fuel (settings_frame (0 ∷ []))
