-- ===== src/Fingerprints.antt =====
-- tools/fingerprint/fingerprints.py: the JA3 and JA4 diagnostics of a ClientHello. `hashlib` is given
-- as the functions from a text to its hexadecimal digest.
pub mod Order
pub mod WithoutGrease
use foxreq.Prelude.{
  ℕ, zero, suc, ◌+◌, List, [], ◌∷◌, ◌++◌, map, Bool, true, false, Option, none, some, ltb, leb,
  ◌==◌, not, ◌&&◌, ◌||◌, if◌then◌else◌, min,
}
use foxreq.Prelude.Lists
use foxreq.Prelude.Lists.{length, keep}
use foxreq.Prelude.Result.{Result, ok, err, ◌>>=◌}
use foxreq.Prelude.Text.{text, Text, decimal, hexadecimal, pad, separated}
use foxreq.Binary.{Fault, Message, Parser, vector_u8, vector_u16, raised}
use foxreq.Model.{TlsExtension, ClientHello, Fingerprint}
use foxreq.Normalize.{is_grease, elements, u16_item, run_parser, u8_vector, alpn}

abbrev pub head? {ℓ} : {A : Type ℓ} → List A → Option A
head? [] = none
head? (x ∷ xs) = some x

abbrev pub with_id : ℕ → List TlsExtension → List TlsExtension
with_id id = keep λ e. e.type_id == id

-- `next((item for item in ... if item.type_id == type_id), None)`
unfoldable pub extension : ClientHello → ℕ → Option TlsExtension
extension h id = head? (with_id id h.extensions)

unfoldable pub raw_u16_vector : List ℕ → Text → Result Fault (List ℕ)
unfolding elements u16_item run_parser
raw_u16_vector bytes path =
    run_parser (elements vector_u16 (u16_item λ v. v) (path ++ text ".values")) bytes path

-- The body of `_raw_u8_vector` is that of `_u8_vector` in normalize.py.
unfoldable pub raw_u8_vector : List ℕ → Text → Result Fault (List ℕ)
raw_u8_vector = u8_vector

unfoldable pub versions_of : Option TlsExtension → ℕ → Result Fault (List ℕ)
unfolding elements u16_item run_parser
versions_of none legacy = ok (legacy ∷ [])
versions_of (some e) legacy =
    run_parser (elements vector_u8 (u16_item λ v. v) (text "extension.supported_versions.values"))
      e.payload (text "extension.supported_versions")

unfoldable pub supported_versions : ClientHello → Result Fault (List ℕ)
unfolding versions_of
supported_versions h = versions_of (extension h 43) h.legacy_version

abbrev pub vector_or_none :
    Option TlsExtension → (List ℕ → Result Fault (List ℕ)) → Result Fault (List ℕ)
vector_or_none none read = ok []
vector_or_none (some e) read = read e.payload

unfoldable pub signature_algorithms : ClientHello → Result Fault (List ℕ)
unfolding raw_u16_vector
signature_algorithms h =
    vector_or_none (extension h 13)
      (λ bytes. raw_u16_vector bytes (text "extension.signature_algorithms"))

unfoldable pub protocols_of : Option TlsExtension → Result Fault (List Text)
protocols_of none = ok []
protocols_of (some e) = alpn e.payload

unfoldable pub alpn_protocols : ClientHello → Result Fault (List Text)
unfolding protocols_of
alpn_protocols h = protocols_of (extension h 16)

abbrev pub not_grease : ℕ → Bool
not_grease v = not (is_grease v)

abbrev pub type_ids : List TlsExtension → List ℕ
type_ids = map λ e. e.type_id

-- `"-".join(str(value) for value in values)`
abbrev pub dashed : List ℕ → Text
dashed ns = separated (text "-") (map decimal ns)

unfoldable pub ja3_raw : ClientHello → List ℕ → List ℕ → Text
ja3_raw h groups formats = separated (text ",") (
    decimal h.legacy_version
    ∷ dashed (keep not_grease h.cipher_suites)
    ∷ dashed (keep not_grease (type_ids h.extensions))
    ∷ dashed (keep not_grease groups)
    ∷ dashed formats
    ∷ [])

unfoldable pub ja3 : (Text → Text) → ClientHello → Result Fault Fingerprint
unfolding ja3_raw
ja3 md5 h = do
  groups ←
      vector_or_none (extension h 10)
        (λ bytes. raw_u16_vector bytes (text "extension.supported_groups"))
  formats ←
      vector_or_none (extension h 11)
        (λ bytes. raw_u8_vector bytes (text "extension.ec_point_formats"))
  ok (record { raw = ja3_raw h groups formats; digest = md5 (ja3_raw h groups formats) })

-- `max(values)` of a list that is not empty
abbrev pub maximum : ℕ → List ℕ → ℕ
maximum m [] = m
maximum m (v ∷ vs) = maximum (if ltb m v then v else m) vs

abbrev highest_of : List ℕ → ℕ → ℕ
highest_of [] legacy = legacy
highest_of (v ∷ vs) legacy = maximum v vs

unfoldable pub version_text : ℕ → Result Fault Text
version_text highest =
    if highest == 0x0304
    then ok (text "13")
    else if highest == 0x0303
    then ok (text "12")
    else if highest == 0x0302
    then ok (text "11")
    else if highest == 0x0301
    then ok (text "10")
    else err (
        raised (record {
          message = Message.unsupported_tls_version highest;
          offset = 0;
          path = text "ja4.version";
        }))

unfoldable pub ja4_version : ClientHello → Result Fault Text
ja4_version h = do
  values ← supported_versions h
  version_text (highest_of (keep not_grease values) h.legacy_version)

-- `sorted(values)`
abbrev pub insert : ℕ → List ℕ → List ℕ
insert v [] = v ∷ []
insert v (x ∷ xs) = if leb v x then v ∷ x ∷ xs else x ∷ insert v xs

unfoldable pub sorted : List ℕ → List ℕ
sorted [] = []
sorted (v ∷ vs) = insert v (sorted vs)

abbrev last_of : ℕ → List ℕ → ℕ
last_of c [] = c
last_of c (d ∷ ds) = last_of d ds

-- `protocols[0][0] + protocols[0][-1]`, or "00" without a protocol or with an empty one
unfoldable pub alpn_marker : List Text → Text
alpn_marker [] = text "00"
alpn_marker ([] ∷ ps) = text "00"
alpn_marker ((c ∷ cs) ∷ ps) = c ∷ last_of c cs ∷ []

abbrev pub sni_marker : Option TlsExtension → Text
sni_marker none = text "i"
sni_marker (some e) = text "d"

-- `",".join("{:04x}".format(value) for value in values)`
abbrev pub hex_list : List ℕ → Text
hex_list ns = separated (text ",") (map (λ n. pad 4 (hexadecimal n)) ns)

-- `"{:02d}".format(min(n, 99))`
abbrev pub two_digits : ℕ → Text
two_digits n = pad 2 (decimal (min n 99))

unfoldable pub ja4 : (Text → Text) → ClientHello → Result Fault Fingerprint
ja4 sha256 h = do
  let ciphers = sorted (keep not_grease h.cipher_suites)
  let extensions = sorted (keep not_grease (type_ids h.extensions))
  signatures ← signature_algorithms h
  protocols ← alpn_protocols h
  version ← ja4_version h
  let section_a =
      text "t"
      ++ (version
          ++ (sni_marker (extension h 0)
              ++ (two_digits (length ciphers)
                  ++ (two_digits (length extensions) ++ alpn_marker protocols))))
  let section_b_raw = hex_list ciphers
  let section_c_raw =
      hex_list (keep (λ v. not (v == 0 || v == 16)) extensions)
      ++ (text "_" ++ hex_list (keep not_grease signatures))
  let section_b = Lists.take 12 (sha256 section_b_raw)
  let section_c = Lists.take 12 (sha256 section_c_raw)
  ok (record {
    raw = section_a ++ (text "_" ++ (section_b_raw ++ (text "_" ++ section_c_raw)));
    digest = section_a ++ (text "_" ++ (section_b ++ (text "_" ++ section_c)));
  })
