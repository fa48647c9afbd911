-- ===== src/Tls.antt =====
-- tools/fingerprint/tls.py: TLS records to one handshake message to a ClientHello.
pub mod Encode
pub mod Parts
pub mod RoundTrip
pub mod Total
use foxreq.Prelude.{
  ℕ, zero, suc, ◌+◌, ◌%◌, List, [], ◌∷◌, ◌++◌, Bool, Option, none, some, ltb, ◌==◌, if◌then◌else◌,
  pos, not,
}
use foxreq.Prelude.Lists.{length, contains, join}
use foxreq.Prelude.Result.{Result}
use foxreq.Prelude.Text.{text, Text}
use foxreq.Binary.{
  Parser, Message, Fault, reader, pure, raise, ◌>>=◌, ◌>>◌, result_of, get_offset, get_remaining,
  take, u8, u16, u24, vector_u8, vector_u16, subreader, finish, while_remaining, on,
}
use foxreq.Model.{TlsExtension, ClientHello}

abbrev pub handshake_content_type : ℕ
handshake_content_type = 22

abbrev pub client_hello_handshake_type : ℕ
client_hello_handshake_type = 1

-- `if test: raise ...`
unfoldable pub raise_if : Bool → Message → ℕ → Text → Parser (Unit {0})
raise_if test message at path = if test then raise message at path else pure tt

-- `values.append(reader.u16())`
unfoldable pub u16_round : List ℕ → Parser (List ℕ)
u16_round values = do value ← u16; pure (values ++ (value ∷ []))

unfoldable pub u16_values : List ℕ → ℕ → Text → Parser (List ℕ)
unfolding u16_round
u16_values bytes base_offset path = do
  raise_if (not (length bytes % 2 == 0)) Message.odd_u16_vector base_offset path
  on (reader bytes base_offset path) (while_remaining u16_round [])

-- The loop's variables: what was appended, and the set `seen`.
pub record Extensions : Type 0 where
  pub items : List TlsExtension
  pub seen : List ℕ

unfoldable pub extension_round : Extensions → Parser Extensions
unfolding raise_if
extension_round s = do
  type_offset ← get_offset
  type_id ← u16
  payload ← vector_u16
  raise_if (contains type_id s.seen) (Message.duplicate_extension type_id) type_offset
      (text "client_hello.extensions")
  pure (record {
    items = s.items ++ (record { type_id = type_id; payload = payload } ∷ []);
    seen = type_id ∷ s.seen;
  })

unfoldable pub extension_block : Parser (List TlsExtension)
unfolding extension_round
extension_block = do
  s ← while_remaining extension_round (record { items = []; seen = [] })
  finish
  pure s.items

unfoldable pub parse_extensions : Parser (List TlsExtension)
unfolding extension_block
parse_extensions = do
  size ← u16
  extension_reader ← subreader size (text "client_hello.extensions")
  on extension_reader extension_block

-- `if reader.remaining: ...`; without it the list stays empty
unfoldable pub optional_extensions : Parser (List TlsExtension)
unfolding parse_extensions
optional_extensions = do left ← get_remaining; if ltb 0 left then parse_extensions else pure []

unfoldable pub client_hello_body : Parser ClientHello
unfolding optional_extensions u16_values raise_if
client_hello_body = do
  legacy_version ← u16
  random ← take (pos 32)
  session_id ← vector_u8
  at ← get_offset
  cipher_bytes ← vector_u16
  cipher_suites ← u16_values cipher_bytes (at + 2) (text "client_hello.cipher_suites")
  raise_if (length cipher_suites == 0) Message.empty_cipher_suites (at + 2)
      (text "client_hello.cipher_suites")
  compression_at ← get_offset
  compression_methods ← vector_u8
  raise_if (length compression_methods == 0) Message.empty_compression_methods (compression_at + 1)
      (text "client_hello.compression_methods")
  extensions ← optional_extensions
  finish
  pure (record {
    legacy_version = legacy_version;
    random = random;
    session_id = session_id;
    cipher_suites = cipher_suites;
    compression_methods = compression_methods;
    extensions = extensions;
  })

-- `_parse_client_hello(body, base_offset)`
unfoldable pub parse_client_hello : List ℕ → ℕ → Result Fault ClientHello
unfolding client_hello_body
parse_client_hello body base_offset =
    result_of (client_hello_body (reader body base_offset (text "client_hello")))

-- The loop's variables: `payloads` and `first_payload_offset`.
pub record Records : Type 0 where
  pub payloads : List (List ℕ)
  pub first_payload_offset : Option ℕ

abbrev pub or_else : Option ℕ → ℕ → ℕ
or_else none d = d
or_else (some x) d = x

unfoldable pub record_round : Records → Parser Records
record_round s = do
  record_offset ← get_offset
  content_type ← u8
  version ← u16
  payload_size ← u16
  raise_if (not (content_type == handshake_content_type))
      (Message.unexpected_content_type content_type) record_offset (text "tls.records")
  at ← get_offset
  payload ← take (pos payload_size)
  pure (record {
    payloads = s.payloads ++ (payload ∷ []);
    first_payload_offset = some (or_else s.first_payload_offset at);
  })

unfoldable pub read_records : Parser Records
unfolding record_round
read_records = do
  s ← while_remaining record_round (record { payloads = []; first_payload_offset = none })
  finish
  pure s

-- The body of the handshake message and where it starts.
unfoldable pub read_handshake : Parser (List ℕ × ℕ)
read_handshake = do
  type_at ← get_offset
  handshake_type ← u8
  raise_if (not (handshake_type == client_hello_handshake_type)) Message.not_client_hello type_at
      (text "tls.handshake")
  body_size ← u24
  body_at ← get_offset
  body ← take (pos body_size)
  finish
  pure (body, body_at)

abbrev pub then_parse : Result Fault (List ℕ × ℕ) → Result Fault ClientHello
then_parse (Result.ok (body, at)) = parse_client_hello body at
then_parse (Result.err e) = Result.err e

abbrev pub then_handshake : Result Fault Records → Result Fault ClientHello
then_handshake (Result.ok s) = then_parse (
    result_of (
      read_handshake
        (reader (join s.payloads) (or_else s.first_payload_offset 0) (text "tls.handshake"))))
then_handshake (Result.err e) = Result.err e

unfoldable pub parse_client_hello_records : List ℕ → Result Fault ClientHello
unfolding read_records read_handshake parse_client_hello raise_if
parse_client_hello_records bytes =
    then_handshake (result_of (read_records (reader bytes 0 (text "tls.records"))))
