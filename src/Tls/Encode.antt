-- ===== src/Tls/Encode.antt =====
-- tls.py read backwards: the bytes that stand for a ClientHello, in any number of TLS records.
use foxreq.Prelude.{ℕ, ◌*◌, ◌<◌, ◌≡◌, List, [], ◌∷◌, ◌++◌, map, Bool, false, if◌then◌else◌}
use foxreq.Prelude.Lists.{length, join, All, contains}
use foxreq.Prelude.Bytes.{to_big}
use foxreq.Binary.Fields.{vector}
use foxreq.Model.{TlsExtension, ClientHello}

abbrev pub IsU16 : ℕ → Type 0
IsU16 n = n < 65536

abbrev pub u16_list : List ℕ → List ℕ
u16_list values = join (map (to_big 2) values)

abbrev pub extension_bytes : TlsExtension → List ℕ
extension_bytes e = to_big 2 e.type_id ++ vector 2 e.payload

abbrev pub extension_list : List TlsExtension → List ℕ
extension_list es = join (map extension_bytes es)

-- A ClientHello with no extensions is written with an empty block or with none.
abbrev pub block_bytes : Bool → List TlsExtension → List ℕ
block_bytes with_block es = if with_block then vector 2 (extension_list es) else []

abbrev pub body_bytes : Bool → ClientHello → List ℕ
body_bytes with_block h =
    to_big 2 h.legacy_version
    ++ (h.random
        ++ (vector 1 h.session_id
            ++ (vector 2 (u16_list h.cipher_suites)
                ++ (vector 1 h.compression_methods ++ block_bytes with_block h.extensions))))

abbrev pub handshake_bytes : Bool → ClientHello → List ℕ
handshake_bytes with_block h = to_big 1 1 ++ vector 3 (body_bytes with_block h)

pub record TlsRecord : Type 0 where
  pub version : ℕ
  pub payload : List ℕ

abbrev pub record_bytes : TlsRecord → List ℕ
record_bytes t = to_big 1 22 ++ (to_big 2 t.version ++ vector 2 t.payload)

abbrev pub record_list : List TlsRecord → List ℕ
record_list ts = join (map record_bytes ts)

abbrev pub IsRecord : TlsRecord → Type 0
IsRecord t = IsU16 t.version × (length t.payload < 65536)

abbrev pub IsExtension : TlsExtension → Type 0
IsExtension e = IsU16 e.type_id × (length e.payload < 65536)

abbrev pub type_ids : List TlsExtension → List ℕ
type_ids = map λ e. e.type_id

-- No identifier comes twice, nor is one of `seen`.
abbrev pub Distinct : List ℕ → List ℕ → Type 0
Distinct seen [] = Unit {0}
Distinct seen (x ∷ xs) = (contains x seen ≡ false) × Distinct (x ∷ seen) xs

-- What the wire can carry.
pub record IsHello (with_block : Bool) (h : ClientHello) : Type 0 where
  pub version : IsU16 h.legacy_version
  pub random : length h.random ≡ 32
  pub session : length h.session_id < 256
  pub suites : All IsU16 h.cipher_suites
  pub suites_some : 0 < length h.cipher_suites
  pub suites_fit : 2 * length h.cipher_suites < 65536
  pub methods_some : 0 < length h.compression_methods
  pub methods_fit : length h.compression_methods < 256
  pub extensions : All IsExtension h.extensions
  pub distinct : Distinct [] (type_ids h.extensions)
  pub block_fits : length (extension_list h.extensions) < 65536
  pub body_fits : length (body_bytes with_block h) < 16777216
  pub no_block : with_block ≡ false → h.extensions ≡ []
