-- ===== src/Normalize/Total.antt =====
-- normalize.py ends on every hello: no loop of its extension parsers runs out of its rounds.
use foxreq.Prelude.{ℕ, ◌≢◌, List, [], ◌∷◌, ◌++◌, pos, arith}
use foxreq.Prelude.Result.{Result, ok, err, ◌>>=◌ as then_result}
use foxreq.Prelude.Text.{Text, text, decimal}
use foxreq.Binary.{
  Fault, out_of_fuel, Parser, reader, pure, ◌>>=◌, ◌>>◌, get_offset, take, u8, u16, vector_u8,
  vector_u16, finish, while_remaining, on,
}
use foxreq.Binary.Halts.{
  Halts, Takes, pure-Halts, pure-Takes, bind-Halts, bind-Takes, on-Halts, take-Halts, take-Takes,
  get_offset-Halts, get_offset-Takes, finish-Halts, u8-Halts, u8-Takes, u16-Halts, u16-Takes,
  vector_u8-Halts, vector_u8-Takes, vector_u16-Halts, vector_u16-Takes, while_remaining-Halts,
  progress,
}
use foxreq.Tls.{raise_if}
use foxreq.Tls.Total.{raise_if-Halts, raise_if-Takes, result_of-ne}
use foxreq.Model.{TlsExtension, ClientHello}
use foxreq.Json.{Json}
use foxreq.Normalize.{
  identifier, elements, u16_item, run_parser, u16_vector, whole_u8_vector, u8_vector,
  server_name_item, server_names, alpn_item, alpn, supported_versions, key_share_item, key_shares,
  identity_item, binder_item, part, psk_lengths, psk_shape, normalize_extension,
  normalize_extensions, normalize_client_hello,
}

module _ {ℓ} {A : Type ℓ} (round : List A → Parser (List A))
    (halts : (s : List A) → Halts (round s)) (takes : (s : List A) → Takes 1 (round s)) where
  content-Halts : Halts (do values ← while_remaining round []; finish; pure values)
  content-Halts =
      bind-Halts (while_remaining round []) _ (while_remaining-Halts round halts takes [])
        λ values. bind-Halts finish _ finish-Halts λ u. pure-Halts values

  pub elements-Halts :
      (vector : Parser (List ℕ)) (path : Text) → Halts vector → Halts (elements vector round path)
  unfolding elements
  elements-Halts vector path h = bind-Halts vector _ h λ payload.
      bind-Halts (on (reader payload 0 path) _) _ (on-Halts (reader payload 0 path) _ content-Halts)
        λ values. bind-Halts finish _ finish-Halts λ u. pure-Halts values

  part-Halts : (path : Text) → Halts (part round path)
  unfolding part
  part-Halts path =
      bind-Halts vector_u16 _ vector_u16-Halts
        λ payload. on-Halts (reader payload 0 path) _ content-Halts

pub u16_item-Halts {ℓ} : {A : Type ℓ} (f : ℕ → A) (s : List A) → Halts (u16_item f s)
unfolding u16_item
u16_item-Halts f s = bind-Halts u16 _ u16-Halts λ v. pure-Halts _

pub u16_item-Takes {ℓ} : {A : Type ℓ} (f : ℕ → A) (s : List A) → Takes 1 (u16_item f s)
unfolding u16_item
u16_item-Takes f s = progress _ 1 (bind-Takes u16 _ 2 0 u16-Takes λ v. pure-Takes _)

server_name_item-Halts : (s : List Json) → Halts (server_name_item s)
unfolding server_name_item
server_name_item-Halts s = bind-Halts u8 _ u8-Halts λ name_type.
    bind-Halts get_offset _ get_offset-Halts λ at.
      bind-Halts vector_u16 _ vector_u16-Halts
        λ name. bind-Halts (raise_if _ _ _ _) _ (raise_if-Halts _ _ _ _) λ u. pure-Halts _

server_name_item-Takes : (s : List Json) → Takes 1 (server_name_item s)
unfolding server_name_item
server_name_item-Takes s = progress _ 2 (
    bind-Takes u8 _ 1 2 u8-Takes λ name_type. bind-Takes get_offset _ 0 2 get_offset-Takes λ at.
      bind-Takes vector_u16 _ 2 0 vector_u16-Takes
        λ name. bind-Takes (raise_if _ _ _ _) _ 0 0 (raise_if-Takes _ _ _ _) λ u. pure-Takes _)

pub alpn_item-Halts : (s : List Text) → Halts (alpn_item s)
unfolding alpn_item
alpn_item-Halts s = bind-Halts get_offset _ get_offset-Halts λ at.
    bind-Halts vector_u8 _ vector_u8-Halts
      λ name. bind-Halts (raise_if _ _ _ _) _ (raise_if-Halts _ _ _ _) λ u. pure-Halts _

pub alpn_item-Takes : (s : List Text) → Takes 1 (alpn_item s)
unfolding alpn_item
alpn_item-Takes s = bind-Takes get_offset _ 0 1 get_offset-Takes λ at.
    bind-Takes vector_u8 _ 1 0 vector_u8-Takes
      λ name. bind-Takes (raise_if _ _ _ _) _ 0 0 (raise_if-Takes _ _ _ _) λ u. pure-Takes _

key_share_item-Halts : (s : List Json) → Halts (key_share_item s)
unfolding key_share_item
key_share_item-Halts s =
    bind-Halts u16 _ u16-Halts λ group. bind-Halts vector_u16 _ vector_u16-Halts λ key. pure-Halts _

key_share_item-Takes : (s : List Json) → Takes 1 (key_share_item s)
unfolding key_share_item
key_share_item-Takes s = progress _ 3 (
    bind-Takes u16 _ 2 2 u16-Takes
      λ group. bind-Takes vector_u16 _ 2 0 vector_u16-Takes λ key. pure-Takes _)

identity_item-Halts : (s : List ℕ) → Halts (identity_item s)
unfolding identity_item
identity_item-Halts s =
    bind-Halts vector_u16 _ vector_u16-Halts
      λ identity. bind-Halts (take (pos 4)) _ (take-Halts 4) λ age. pure-Halts _

identity_item-Takes : (s : List ℕ) → Takes 1 (identity_item s)
unfolding identity_item
identity_item-Takes s = progress _ 5 (
    bind-Takes vector_u16 _ 2 4 vector_u16-Takes
      λ identity. bind-Takes (take (pos 4)) _ 4 0 (take-Takes 4) λ age. pure-Takes _)

binder_item-Halts : (s : List ℕ) → Halts (binder_item s)
unfolding binder_item
binder_item-Halts s = bind-Halts vector_u8 _ vector_u8-Halts λ binder. pure-Halts _

binder_item-Takes : (s : List ℕ) → Takes 1 (binder_item s)
unfolding binder_item
binder_item-Takes s = bind-Takes vector_u8 _ 1 0 vector_u8-Takes λ binder. pure-Takes _

psk_lengths-Halts : Halts psk_lengths
unfolding psk_lengths
psk_lengths-Halts =
    bind-Halts (part identity_item _) _
      (part-Halts identity_item identity_item-Halts identity_item-Takes _)
      λ i.
        bind-Halts (part binder_item _) _
          (part-Halts binder_item binder_item-Halts binder_item-Takes _)
          λ b. bind-Halts finish _ finish-Halts λ u. pure-Halts (i, b)

pub whole_u8_vector-Halts : Halts whole_u8_vector
unfolding whole_u8_vector
whole_u8_vector-Halts =
    bind-Halts vector_u8 _ vector_u8-Halts
      λ values. bind-Halts finish _ finish-Halts λ u. pure-Halts values

pub run_parser-ne {ℓ} :
    {A : Type ℓ} (m : Parser A) (bytes : List ℕ) (path : Text)
    → Halts m
    → run_parser m bytes path ≢ err out_of_fuel
unfolding run_parser
run_parser-ne m bytes path h = result_of-ne m (reader bytes 0 path) h

pub then_result-ne {ℓ κ} :
    {A : Type ℓ} {B : Type κ} (r : Result Fault A) (f : A → Result Fault B)
    → r ≢ err out_of_fuel
    → ((a : A) → f a ≢ err out_of_fuel)
    → then_result r f ≢ err out_of_fuel
then_result-ne (ok a) f h k e = k a e
then_result-ne (err x) f h k e = h (cc)

u16_vector-ne : (bytes : List ℕ) (path : Text) → u16_vector bytes path ≢ err out_of_fuel
unfolding u16_vector
u16_vector-ne bytes path = run_parser-ne _ bytes path (
    elements-Halts (u16_item identifier) (u16_item-Halts identifier) (u16_item-Takes identifier)
      vector_u16 _ vector_u16-Halts)

u8_vector-ne : (bytes : List ℕ) (path : Text) → u8_vector bytes path ≢ err out_of_fuel
unfolding u8_vector
u8_vector-ne bytes path = run_parser-ne whole_u8_vector bytes path whole_u8_vector-Halts

server_names-ne : (bytes : List ℕ) → server_names bytes ≢ err out_of_fuel
unfolding server_names
server_names-ne bytes = run_parser-ne _ bytes _ (
    elements-Halts server_name_item server_name_item-Halts server_name_item-Takes vector_u16 _
      vector_u16-Halts)

alpn-ne : (bytes : List ℕ) → alpn bytes ≢ err out_of_fuel
unfolding alpn
alpn-ne bytes =
    run_parser-ne _ bytes _
      (elements-Halts alpn_item alpn_item-Halts alpn_item-Takes vector_u16 _ vector_u16-Halts)

supported_versions-ne : (bytes : List ℕ) → supported_versions bytes ≢ err out_of_fuel
unfolding supported_versions
supported_versions-ne bytes = run_parser-ne _ bytes _ (
    elements-Halts (u16_item identifier) (u16_item-Halts identifier) (u16_item-Takes identifier)
      vector_u8 _ vector_u8-Halts)

key_shares-ne : (bytes : List ℕ) → key_shares bytes ≢ err out_of_fuel
unfolding key_shares
key_shares-ne bytes = run_parser-ne _ bytes _ (
    elements-Halts key_share_item key_share_item-Halts key_share_item-Takes vector_u16 _
      vector_u16-Halts)

psk_shape-ne : (bytes : List ℕ) → psk_shape bytes ≢ err out_of_fuel
unfolding psk_shape
psk_shape-ne bytes =
    then_result-ne (run_parser psk_lengths bytes _) _
      (run_parser-ne psk_lengths bytes _ psk_lengths-Halts) (λ l e. cc)

normalize_extension-ne : (e : TlsExtension) → normalize_extension e ≢ err out_of_fuel
unfolding normalize_extension
normalize_extension-ne e = ground (
  arith,
  server_names-ne e.payload,
  u16_vector-ne e.payload (text "extension." ++ decimal e.type_id),
  u8_vector-ne e.payload (text "extension." ++ decimal e.type_id),
  alpn-ne e.payload,
  psk_shape-ne e.payload,
  supported_versions-ne e.payload,
  key_shares-ne e.payload,
)

normalize_extensions-ne : (es : List TlsExtension) → normalize_extensions es ≢ err out_of_fuel
unfolding normalize_extensions
normalize_extensions-ne [] = λ e. cc
normalize_extensions-ne (x ∷ xs) =
    then_result-ne (normalize_extension x) _ (normalize_extension-ne x)
      λ v. then_result-ne (normalize_extensions xs) _ (normalize_extensions-ne xs) (λ vs e. cc)

-- Normalising ends on every ClientHello, with evidence or a `ParseError`.
pub normalize_client_hello-ne-out_of_fuel :
    (h : ClientHello) → normalize_client_hello h ≢ err out_of_fuel
unfolding normalize_client_hello
normalize_client_hello-ne-out_of_fuel h =
    then_result-ne (normalize_extensions h.extensions) _ (normalize_extensions-ne h.extensions)
      (λ es e. cc)
