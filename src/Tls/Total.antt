-- ===== src/Tls/Total.antt =====
-- tls.py ends on every input: no loop of the parser runs out of its rounds.
use foxreq.Prelude.{
  ℕ, ◌+◌, ◌≡◌, ◌≢◌, refl, ◌∙◌, List, [], ◌∷◌, ◌++◌, Bool, true, false, ltb, pos, arith,
  if◌then◌else◌,
}
use foxreq.Prelude.Lists.{join}
use foxreq.Prelude.Result.{Result, ok, err}
use foxreq.Prelude.Text.{Text, text}
use foxreq.Binary.{
  Fault, out_of_fuel, Message, Reader, Parser, pure, reader, result_of, u8, u16, u24, vector_u8,
  vector_u16, take, subreader, get_offset, get_remaining, while_remaining, finish,
}
use foxreq.Binary.Halts.{
  Halts, Takes, pure-Halts, raise-Halts, pure-Takes, raise-Takes, bind-Halts, bind-Takes, on-Halts,
  take-Halts, take-Takes, get_offset-Halts, get_offset-Takes, get_remaining-Halts, finish-Halts,
  u8-Halts, u8-Takes, u16-Halts, u16-Takes, u24-Halts, vector_u8-Halts, vector_u16-Halts,
  vector_u16-Takes, subreader-Halts, while_remaining-Halts, weaken,
}
use foxreq.Tls.{
  raise_if, u16_round, u16_values, Extensions, extension_round, extension_block, parse_extensions,
  optional_extensions, client_hello_body, parse_client_hello, Records, record_round, read_records,
  read_handshake, then_parse, then_handshake, or_else, parse_client_hello_records,
}

pub raise_if-Halts :
    (test : Bool) (m : Message) (at : ℕ) (path : Text) → Halts (raise_if test m at path)
unfolding raise_if
raise_if-Halts true m at path = raise-Halts m at path
raise_if-Halts false m at path = pure-Halts tt

pub raise_if-Takes :
    (test : Bool) (m : Message) (at : ℕ) (path : Text) → Takes 0 (raise_if test m at path)
unfolding raise_if
raise_if-Takes true m at path = raise-Takes 0 m at path
raise_if-Takes false m at path = pure-Takes tt

pub u16_round-Halts : (s : List ℕ) → Halts (u16_round s)
unfolding u16_round
u16_round-Halts s = bind-Halts u16 _ u16-Halts (λ v. pure-Halts (s ++ (v ∷ [])))

pub u16_round-Takes : (s : List ℕ) → Takes 1 (u16_round s)
unfolding u16_round
u16_round-Takes s r r' a h = omega (
  arith,
  bind-Takes u16 (λ v. pure (s ++ (v ∷ []))) 2 0 u16-Takes (λ v. pure-Takes (s ++ (v ∷ []))) r r' a
      h,
)

u16_values-Halts : (bytes : List ℕ) (base : ℕ) (path : Text) → Halts (u16_values bytes base path)
unfolding u16_values
u16_values-Halts bytes base path =
    bind-Halts (raise_if _ _ base path) _ (raise_if-Halts _ _ base path) λ u.
      on-Halts (reader bytes base path) _
        (while_remaining-Halts u16_round u16_round-Halts u16_round-Takes [])

extension_round-Halts : (s : Extensions) → Halts (extension_round s)
unfolding extension_round
extension_round-Halts s = bind-Halts get_offset _ get_offset-Halts λ at.
    bind-Halts u16 _ u16-Halts λ type_id.
      bind-Halts vector_u16 _ vector_u16-Halts
        λ payload. bind-Halts (raise_if _ _ at _) _ (raise_if-Halts _ _ at _) λ u. pure-Halts _

extension_round-Takes : (s : Extensions) → Takes 1 (extension_round s)
unfolding extension_round
extension_round-Takes s r r' a h = omega (
  arith,
  bind-Takes get_offset _ 0 4 get_offset-Takes
      (λ at. bind-Takes u16 _ 2 2 u16-Takes λ type_id.
        bind-Takes vector_u16 _ 2 0 vector_u16-Takes λ payload.
          bind-Takes (raise_if _ _ at _) _ 0 0 (raise_if-Takes _ _ at _) λ u. pure-Takes _)
      r r' a h,
)

extension_block-Halts : Halts extension_block
unfolding extension_block
extension_block-Halts =
    bind-Halts (while_remaining extension_round _) _
      (while_remaining-Halts extension_round extension_round-Halts extension_round-Takes _)
      λ s. bind-Halts finish _ finish-Halts λ u. pure-Halts s.items

parse_extensions-Halts : Halts parse_extensions
unfolding parse_extensions
parse_extensions-Halts = bind-Halts u16 _ u16-Halts λ size.
    bind-Halts (subreader size _) _ (subreader-Halts size _)
      λ part. on-Halts part extension_block extension_block-Halts

optional_extensions-Halts : Halts optional_extensions
unfolding optional_extensions
optional_extensions-Halts =
    bind-Halts get_remaining _ get_remaining-Halts λ left. branch-Halts (ltb 0 left)
  where
    branch-Halts : (test : Bool) → Halts (if test then parse_extensions else pure [])
    branch-Halts true = parse_extensions-Halts
    branch-Halts false = pure-Halts []

client_hello_body-Halts : Halts client_hello_body
unfolding client_hello_body
client_hello_body-Halts = bind-Halts u16 _ u16-Halts λ version.
    bind-Halts (take (pos 32)) _ (take-Halts 32) λ random.
      bind-Halts vector_u8 _ vector_u8-Halts λ session.
        bind-Halts get_offset _ get_offset-Halts λ at.
          bind-Halts vector_u16 _ vector_u16-Halts λ bytes.
            bind-Halts (u16_values bytes _ _) _ (u16_values-Halts bytes _ _) λ suites.
              bind-Halts (raise_if _ _ _ _) _ (raise_if-Halts _ _ _ _) λ u.
                bind-Halts get_offset _ get_offset-Halts λ method_at.
                  bind-Halts vector_u8 _ vector_u8-Halts λ methods.
                    bind-Halts (raise_if _ _ _ _) _ (raise_if-Halts _ _ _ _) λ u'.
                      bind-Halts optional_extensions _ optional_extensions-Halts
                        λ es. bind-Halts finish _ finish-Halts λ u''. pure-Halts _

record_round-Halts : (s : Records) → Halts (record_round s)
unfolding record_round
record_round-Halts s = bind-Halts get_offset _ get_offset-Halts λ record_at.
    bind-Halts u8 _ u8-Halts λ content_type. bind-Halts u16 _ u16-Halts λ version.
      bind-Halts u16 _ u16-Halts λ size.
        bind-Halts (raise_if _ _ _ _) _ (raise_if-Halts _ _ _ _) λ u.
          bind-Halts get_offset _ get_offset-Halts
            λ at. bind-Halts (take (pos size)) _ (take-Halts size) λ payload. pure-Halts _

record_round-Takes : (s : Records) → Takes 1 (record_round s)
unfolding record_round
record_round-Takes s = bind-Takes get_offset _ 0 1 get_offset-Takes λ record_at.
    bind-Takes u8 _ 1 0 u8-Takes λ content_type. weaken _ 4 (
      bind-Takes u16 _ 2 2 u16-Takes λ version. bind-Takes u16 _ 2 0 u16-Takes λ size.
        bind-Takes (raise_if _ _ _ _) _ 0 0 (raise_if-Takes _ _ _ _) λ u.
          bind-Takes get_offset _ 0 0 get_offset-Takes λ at.
            weaken _ (size + 0)
              (bind-Takes (take (pos size)) _ size 0 (take-Takes size) λ payload. pure-Takes _))

read_records-Halts : Halts read_records
unfolding read_records
read_records-Halts =
    bind-Halts (while_remaining record_round _) _
      (while_remaining-Halts record_round record_round-Halts record_round-Takes _)
      λ s. bind-Halts finish _ finish-Halts λ u. pure-Halts s

read_handshake-Halts : Halts read_handshake
unfolding read_handshake
read_handshake-Halts = bind-Halts get_offset _ get_offset-Halts λ type_at.
    bind-Halts u8 _ u8-Halts λ handshake_type.
      bind-Halts (raise_if _ _ _ _) _ (raise_if-Halts _ _ _ _) λ u.
        bind-Halts u24 _ u24-Halts λ size. bind-Halts get_offset _ get_offset-Halts λ at.
          bind-Halts (take (pos size)) _ (take-Halts size)
            λ body. bind-Halts finish _ finish-Halts λ u'. pure-Halts (body, at)

pub result_of-ne {ℓ} :
    {A : Type ℓ} (m : Parser A) (r : Reader) → Halts m → result_of (m r) ≢ err out_of_fuel
result_of-ne {A} m r h = go (m r) refl
  where
    go : (o : Result Fault (A × Reader)) → m r ≡ o → result_of o ≢ err out_of_fuel
    go (ok (a, r')) e k = cc
    go (err x) e k = h r (e ∙ cc)

parse_client_hello-ne : (body : List ℕ) (at : ℕ) → parse_client_hello body at ≢ err out_of_fuel
unfolding parse_client_hello
parse_client_hello-ne body at = result_of-ne client_hello_body _ client_hello_body-Halts

-- The parser ends on every input with a ClientHello or a `ParseError`.
pub parse_client_hello_records-ne-out_of_fuel :
    (bytes : List ℕ) → parse_client_hello_records bytes ≢ err out_of_fuel
unfolding parse_client_hello_records
parse_client_hello_records-ne-out_of_fuel bytes =
    records (result_of (read_records start)) (result_of-ne read_records start read_records-Halts)
  where
    start : Reader
    start = reader bytes 0 (text "tls.records")

    message : (o : Result Fault (List ℕ × ℕ)) → o ≢ err out_of_fuel → then_parse o ≢ err out_of_fuel
    message (ok (body, at)) h k = parse_client_hello-ne body at k
    message (err x) h k = h (cc)

    records : (o : Result Fault Records) → o ≢ err out_of_fuel → then_handshake o ≢ err out_of_fuel
    records (ok s) h k =
        message (result_of (read_handshake (handshake s)))
          (result_of-ne read_handshake (handshake s) read_handshake-Halts) k
      where
        handshake : Records → Reader
        handshake s =
            reader (join s.payloads) (or_else s.first_payload_offset 0) (text "tls.handshake")
    records (err x) h k = h (cc)
