-- ===== src/Tls/RoundTrip.antt =====
-- tls.py: a ClientHello is read back from its bytes, in whatever records they travel.
use foxreq.Prelude.{
  ℕ, ◌<◌, ◌≡◌, refl, sym, ap, ◌∙◌, List, [], ◌∷◌, ◌++◌, map, Bool, false, ◌==◌, append-nil,
  append_assoc, arith, pos, none, some,
}
use foxreq.Prelude.Lists.{length, length-append, join, join-append, All}
use foxreq.Prelude.Bytes.{to_big, length-to_big}
use foxreq.Prelude.Text.{text}
use foxreq.Prelude.Result.{ok}
use foxreq.Binary.{
  pure, ◌>>=◌, ◌>>◌, reader, result_of, u8, u16, u24, vector_u8, vector_u16, take, finish,
}
use foxreq.Binary.Reads.{
  ReadsEnd, map-Reads, pure-Reads, offset-ReadsEnd, bind-ReadsEnd, then-ReadsEnd, finish-ReadsEnd,
  Reads-ReadsEnd, take-Reads,
}
use foxreq.Binary.Outcomes.{
  Outcome, OutcomeEnd, bind-Outcome, bind-OutcomeEnd, offset-OutcomeEnd, ReadsEnd-OutcomeEnd,
  offset-Outcome, Reads-Outcome, Steps, while_remaining-Outcome,
}
use foxreq.Binary.Fields.{vector, u8-Reads, u16-Reads, u24-Reads, vector_u8-Reads, vector_u16-Reads}
use foxreq.Model.{ClientHello}
use foxreq.Tls.{
  or_else, then_parse, then_handshake, Records, record_round, read_records, client_hello_body,
  read_handshake, parse_client_hello, parse_client_hello_records, optional_extensions,
}
use foxreq.Tls.Encode.{
  u16_list, body_bytes, handshake_bytes, TlsRecord, record_bytes, record_list, IsRecord, IsHello,
}
use foxreq.Tls.Parts.{
  raise_if-Outcome, raise_if-OutcomeEnd, raise_if-ReadsEnd, u16_values-Reads, length-u16_list,
  optional_extensions-ReadsEnd,
}

pos_ne : (n : ℕ) → 0 < n → (n == 0) ≡ false
pos_ne n h = ground arith

-- `finish()` and `return`, at the end of the input.
finishing {ℓ} : {A : Type ℓ} (a : A) → ReadsEnd (finish >> pure a) [] a
finishing a =
    then-ReadsEnd finish _ [] tt a finish-ReadsEnd (Reads-ReadsEnd (pure a) [] a (pure-Reads a))

client_hello_body-ReadsEnd :
    (with_block : Bool) (h : ClientHello)
    → IsHello with_block h
    → ReadsEnd client_hello_body (body_bytes with_block h) h
unfolding client_hello_body
client_hello_body-ReadsEnd with_block h v =
    bind-ReadsEnd u16 _ (to_big 2 h.legacy_version) _ h.legacy_version h (u16-Reads _ v.version) (
      bind-ReadsEnd (take (pos 32)) _ h.random _ h.random h (take-Reads h.random 32 v.random) (
        bind-ReadsEnd vector_u8 _ (vector 1 h.session_id) _ h.session_id h
          (vector_u8-Reads h.session_id v.session)
          (offset-ReadsEnd _ _ h λ at.
            bind-ReadsEnd vector_u16 _ (vector 2 (u16_list h.cipher_suites)) _
              (u16_list h.cipher_suites) h
              (vector_u16-Reads _ (omega (arith, length-u16_list h.cipher_suites, v.suites_fit)))
              (bind-ReadsEnd _ _ [] _ h.cipher_suites h
                (u16_values-Reads h.cipher_suites _ _ v.suites)
                (raise_if-ReadsEnd _ _ _ _ _ _ h (pos_ne (length h.cipher_suites) v.suites_some) (
                  offset-ReadsEnd _ _ h λ compression_at.
                    bind-ReadsEnd vector_u8 _ (vector 1 h.compression_methods) _
                      h.compression_methods h (vector_u8-Reads _ v.methods_fit)
                      (raise_if-ReadsEnd _ _ _ _ _ _ h
                        (pos_ne (length h.compression_methods) v.methods_some)
                        (then-ReadsEnd optional_extensions _ _ h.extensions h
                          (optional_extensions-ReadsEnd with_block h.extensions v.extensions
                            v.distinct v.block_fits v.no_block)
                          (finishing h)))))))))

-- One record adds its payload; where the first payload starts depends on the reader.
abbrev Adds : Records → TlsRecord → Records → Type 0
Adds s t u = u.payloads ≡ s.payloads ++ (t.payload ∷ [])

abbrev added : Records → TlsRecord → ℕ → Records
added s t at = record {
  payloads = s.payloads ++ (t.payload ∷ []);
  first_payload_offset = some (or_else s.first_payload_offset at);
}

record_round-Outcome :
    (s : Records) (t : TlsRecord)
    → IsRecord t
    → Outcome (record_round s) (record_bytes t) (Adds s t)
unfolding record_round
record_round-Outcome s t h = offset-Outcome _ _ (Adds s t) λ record_offset.
    bind-Outcome u8 _ (to_big 1 22) _ 22 (Adds s t) (u8-Reads 22 (omega arith)) (
      bind-Outcome u16 _ (to_big 2 t.version) _ t.version (Adds s t) (u16-Reads t.version h.0) (
        bind-Outcome u16 _ (to_big 2 (length t.payload)) _ (length t.payload) (Adds s t)
          (u16-Reads (length t.payload) h.1)
          (raise_if-Outcome _ _ _ _ _ _ (Adds s t) refl (
            offset-Outcome _ _ (Adds s t) λ at.
              let add = λ (payload : List ℕ). added s (record t { payload = payload }) at in
              Reads-Outcome (take (pos (length t.payload)) >>= λ payload. pure (add payload))
                t.payload (added s t at) (Adds s t)
                (map-Reads (take (pos (length t.payload))) add t.payload t.payload
                  (take-Reads t.payload (length t.payload) refl))
                refl))))

Steps-payloads :
    (ts : List TlsRecord) (s u : Records)
    → Steps record_round record_bytes Adds s ts u
    → join u.payloads ≡ join s.payloads ++ join (map (λ t. t.payload) ts)
Steps-payloads [] s u e =
    ap (λ (x : Records). join x.payloads) (sym e) ∙ sym (append-nil (join s.payloads))
Steps-payloads (t ∷ ts) s u (v, add, more) =
    Steps-payloads ts v u more
    ∙ ap (λ r. r ++ join (map (λ t. t.payload) ts))
        (ap join add
          ∙ join-append s.payloads (t.payload ∷ [])
          ∙ ap (λ r. join s.payloads ++ r) (append-nil t.payload))
    ∙ append_assoc (join s.payloads) t.payload (join (map (λ t. t.payload) ts))

abbrev payloads_of : List TlsRecord → List ℕ
payloads_of ts = join (map (λ t. t.payload) ts)

-- Where the handshake message starts in the file is only for messages.
read_records_lem :
    (ts : List TlsRecord)
    → All IsRecord ts
    → (s : Records) × (result_of (read_records (reader (record_list ts) 0 (text "tls.records")))
        ≡ ok s)
      × (join s.payloads ≡ payloads_of ts)
unfolding read_records ◌>>=◌ reader
read_records_lem ts h =
    let start : Records = record { payloads = []; first_payload_offset = none } in
    let (s, steps, e) =
      while_remaining-Outcome record_round record_bytes Adds IsRecord
        (λ t ht. omega (
          arith,
          length-append (to_big 1 22) (to_big 2 t.version ++ vector 2 t.payload),
          length-to_big 1 22,
        ))
        record_round-Outcome ts start h [] 0 (text "tls.records") in
    (
      s,
      rw (e, ◌>>=◌) (rw (finishing s (record_list ts) 0 (text "tls.records"))),
      Steps-payloads ts start s steps,
    )

read_handshake-OutcomeEnd :
    (body : List ℕ)
    → length body < 16777216
    → OutcomeEnd read_handshake (to_big 1 1 ++ vector 3 body) (λ r. r.0 ≡ body)
unfolding read_handshake
read_handshake-OutcomeEnd body h =
    let P = λ (r : List ℕ × ℕ). r.0 ≡ body in
    offset-OutcomeEnd _ _ P λ type_at.
      bind-OutcomeEnd u8 _ (to_big 1 1) _ 1 P (u8-Reads 1 (omega arith)) (
        raise_if-OutcomeEnd _ _ _ _ _ _ P refl (
          bind-OutcomeEnd u24 _ (to_big 3 (length body)) body (length body) P (u24-Reads _ h) (
            offset-OutcomeEnd _ _ P λ body_at.
              let k = λ (b : List ℕ). finish >> pure (b, body_at) in
              ReadsEnd-OutcomeEnd (take (pos (length body)) >>= k) body (body, body_at) P
                (then-ReadsEnd (take (pos (length body))) k body body (body, body_at)
                  (Reads-ReadsEnd (take (pos (length body))) body body
                    (take-Reads body (length body) refl))
                  (finishing (body, body_at)))
                refl)))

parse_client_hello-body_bytes :
    (with_block : Bool) (h : ClientHello) (at : ℕ)
    → IsHello with_block h
    → parse_client_hello (body_bytes with_block h) at ≡ ok h
unfolding parse_client_hello reader
parse_client_hello-body_bytes with_block h at v =
    ap result_of (client_hello_body-ReadsEnd with_block h v [] at (text "client_hello"))

handshake_lem :
    (with_block : Bool) (h : ClientHello) (at : ℕ)
    → IsHello with_block h
    → then_parse (
        result_of
          (read_handshake (reader (handshake_bytes with_block h) at (text "tls.handshake"))))
      ≡ ok h
unfolding reader
handshake_lem with_block h at v =
    let ((body, body_at), e, run) =
      read_handshake-OutcomeEnd (body_bytes with_block h) v.body_fits [] at
        (text "tls.handshake") in
    ap (λ r. then_parse (result_of r)) run
    ∙ ap (λ b. parse_client_hello b body_at) e
    ∙ parse_client_hello-body_bytes with_block h body_at v

-- A ClientHello that the wire can carry, written as one handshake message that is cut into TLS
-- records of any versions at any places, is read back whole, whether a hello with no extensions
-- is written with an empty extension block or with none.
pub parse_client_hello_records-record_list :
    (with_block : Bool) (h : ClientHello) (ts : List TlsRecord)
    → IsHello with_block h
    → All IsRecord ts
    → join (map (λ t. t.payload) ts) ≡ handshake_bytes with_block h
    → parse_client_hello_records (record_list ts) ≡ ok h
unfolding parse_client_hello_records
parse_client_hello_records-record_list with_block h ts v hts cut =
    let (s, run, e) = read_records_lem ts hts in
    ap then_handshake run
    ∙ ap
        (λ b. then_parse (
          result_of
            (read_handshake (reader b (or_else s.first_payload_offset 0) (text "tls.handshake")))))
        (e ∙ cut)
    ∙ handshake_lem with_block h (or_else s.first_payload_offset 0) v
