-- ===== src/Normalize.antt =====
-- tools/fingerprint/normalize.py: a ClientHello as evidence that two captures can be compared by.
pub mod Grease
pub mod Dynamic
pub mod Total
use foxreq.Prelude.{
  ℕ, zero, suc, ◌+◌, ◌-◌, ◌/◌, ◌%◌, List, [], ◌∷◌, ◌++◌, map, Bool, true, false, ltb, ◌==◌, not,
  ◌&&◌, ◌||◌, if◌then◌else◌, pos, bit_and,
}
use foxreq.Prelude.Lists.{length, all}
use foxreq.Prelude.Result.{Result, ok, err, ◌>>=◌ as then_result}
use foxreq.Prelude.Text.{text, Text, decimal, hexadecimal, pad}
use foxreq.Binary.{
  Parser, Message, Fault, reader, pure, raise, ◌>>=◌, ◌>>◌, result_of, get_offset, take, u8, u16,
  vector_u8, vector_u16, finish, while_remaining, on,
}
use foxreq.Tls.{raise_if}
use foxreq.Model.{TlsExtension, ClientHello}
use foxreq.Json.{Json, Items, str, list, dict, items, fields, number}

-- `value >> 8` is the division by 256
unfoldable pub is_grease : ℕ → Bool
is_grease value = bit_and value 0x0F0F == 0x0A0A && value / 256 == bit_and value 0xFF

unfoldable pub identifier : ℕ → Json
unfolding is_grease
identifier value = if is_grease value then str (text "GREASE") else number value

-- The shape that the extension parsers share: a vector whose content a reader of its own takes apart
-- item by item, to its end, after which nothing may follow.
unfoldable pub elements {ℓ} :
    {A : Type ℓ} → Parser (List ℕ) → (List A → Parser (List A)) → Text → Parser (List A)
elements vector round path = do
  payload ← vector
  values ← on (reader payload 0 path) (do values ← while_remaining round []; finish; pure values)
  finish
  pure values

-- `values.append(f(payload.u16()))`
unfoldable pub u16_item {ℓ} : {A : Type ℓ} → (ℕ → A) → List A → Parser (List A)
u16_item f values = do value ← u16; pure (values ++ (f value ∷ []))

unfoldable pub run_parser {ℓ} : {A : Type ℓ} → Parser A → List ℕ → Text → Result Fault A
run_parser m bytes path = result_of (m (reader bytes 0 path))

unfoldable pub u16_vector : List ℕ → Text → Result Fault (List Json)
unfolding elements u16_item identifier run_parser
u16_vector bytes path =
    run_parser (elements vector_u16 (u16_item identifier) (path ++ text ".values")) bytes path

unfoldable pub whole_u8_vector : Parser (List ℕ)
whole_u8_vector = do values ← vector_u8; finish; pure values

unfoldable pub u8_vector : List ℕ → Text → Result Fault (List ℕ)
unfolding whole_u8_vector run_parser
u8_vector bytes path = run_parser whole_u8_vector bytes path

-- `bytes.decode("ascii")` succeeds
abbrev pub is_ascii : List ℕ → Bool
is_ascii = all (λ b. ltb b 128)

unfoldable pub server_name_item : List Json → Parser (List Json)
unfolding raise_if
server_name_item names = do
  name_type ← u8
  at ← get_offset
  raw_name ← vector_u16
  raise_if (not (is_ascii raw_name)) Message.server_name_not_ascii (at + 2)
      (text "extension.server_name.names")
  pure (
      names
      ++ (dict (fields ((text "name_type", number name_type) ∷ (text "name", str raw_name) ∷ []))
          ∷ []))

unfoldable pub server_names : List ℕ → Result Fault (List Json)
unfolding elements server_name_item run_parser
server_names bytes =
    run_parser (elements vector_u16 server_name_item (text "extension.server_name.names")) bytes
      (text "extension.server_name")

unfoldable pub alpn_item : List Text → Parser (List Text)
unfolding raise_if
alpn_item protocols = do
  at ← get_offset
  raw_protocol ← vector_u8
  raise_if (not (is_ascii raw_protocol)) Message.alpn_not_ascii (at + 1)
      (text "extension.alpn.protocols")
  pure (protocols ++ (raw_protocol ∷ []))

unfoldable pub alpn : List ℕ → Result Fault (List Text)
unfolding elements alpn_item run_parser
alpn bytes =
    run_parser (elements vector_u16 alpn_item (text "extension.alpn.protocols")) bytes
      (text "extension.alpn")

unfoldable pub supported_versions : List ℕ → Result Fault (List Json)
unfolding elements u16_item identifier run_parser
supported_versions bytes =
    run_parser
      (elements vector_u8 (u16_item identifier) (text "extension.supported_versions.values")) bytes
      (text "extension.supported_versions")

unfoldable pub key_share_item : List Json → Parser (List Json)
unfolding identifier
key_share_item shares = do
  group ← u16
  key ← vector_u16
  pure (
      shares
      ++ (dict (
            fields
              ((text "group", identifier group) ∷ (text "key_length", number (length key)) ∷ []))
          ∷ []))

unfoldable pub key_shares : List ℕ → Result Fault (List Json)
unfolding elements key_share_item run_parser
key_shares bytes =
    run_parser (elements vector_u16 key_share_item (text "extension.key_share.entries")) bytes
      (text "extension.key_share")

unfoldable pub identity_item : List ℕ → Parser (List ℕ)
identity_item lengths = do
  identity ← vector_u16
  age ← take (pos 4)
  pure (lengths ++ (length identity ∷ []))

unfoldable pub binder_item : List ℕ → Parser (List ℕ)
binder_item lengths = do binder ← vector_u8; pure (lengths ++ (length binder ∷ []))

-- `while part.remaining: ...` and `part.finish()` over the content of the next vector
unfoldable pub part {ℓ} : {A : Type ℓ} → (List A → Parser (List A)) → Text → Parser (List A)
part round path = do
  payload ← vector_u16
  on (reader payload 0 path) (do values ← while_remaining round []; finish; pure values)

unfoldable pub psk_lengths : Parser (List ℕ × List ℕ)
unfolding part identity_item binder_item
psk_lengths = do
  identity_lengths ← part identity_item (text "extension.pre_shared_key.identities")
  binder_lengths ← part binder_item (text "extension.pre_shared_key.binders")
  finish
  pure (identity_lengths, binder_lengths)

abbrev pub numbers : List ℕ → Json
numbers ns = list (items (map number ns))

abbrev psk_value : List ℕ × List ℕ → Json
psk_value (identity_lengths, binder_lengths) = dict (
    fields (
      (text "identity_lengths", numbers identity_lengths)
      ∷ (text "binder_lengths", numbers binder_lengths)
      ∷ []))

unfoldable pub psk_shape : List ℕ → Result Fault Json
unfolding psk_lengths run_parser
psk_shape bytes =
    then_result (run_parser psk_lengths bytes (text "extension.pre_shared_key"))
      (λ l. ok (psk_value l))

-- `data.hex()`
abbrev pub hex : List ℕ → Text
hex [] = []
hex (b ∷ bs) = pad 2 (hexadecimal b) ++ hex bs

-- One more entry of the dict, when its value could be computed.
abbrev pub with_entry {ℓ} :
    {A : Type ℓ} → List (Text × Json) → Text → (A → Json) → Result Fault A → Result Fault Json
with_entry entries key make value =
    then_result value (λ v. ok (dict (fields (entries ++ ((key, make v) ∷ [])))))

abbrev pub json_list : List Json → Json
json_list vs = list (items vs)

abbrev pub text_list : List Text → Json
text_list ts = list (items (map str ts))

unfoldable pub normalize_extension : TlsExtension → Result Fault Json
unfolding identifier
normalize_extension e =
    let entries =
      (text "type", identifier e.type_id) ∷ (text "length", number (length e.payload)) ∷ [] in
    let id = e.type_id in
    if is_grease id
    then ok (dict (fields entries))
    else if id == 0
    then with_entry entries (text "server_names") json_list (server_names e.payload)
    else if id == 10 || id == 13
    then with_entry entries (text "values") json_list
        (u16_vector e.payload (text "extension." ++ decimal id))
    else if id == 11 || id == 45
    then with_entry entries (text "values") numbers
        (u8_vector e.payload (text "extension." ++ decimal id))
    else if id == 16
    then with_entry entries (text "protocols") text_list (alpn e.payload)
    else if id == 21
    then ok (dict (fields (entries ++ ((text "padding_length", number (length e.payload)) ∷ []))))
    else if id == 41
    then with_entry entries (text "pre_shared_key") (λ v. v) (psk_shape e.payload)
    else if id == 43
    then with_entry entries (text "versions") json_list (supported_versions e.payload)
    else if id == 51
    then with_entry entries (text "key_shares") json_list (key_shares e.payload)
    else ok (dict (fields (entries ++ ((text "data_hex", str (hex e.payload)) ∷ []))))

-- `[_normalize_extension(item) for item in ...]`: the first that raises ends it
unfoldable pub normalize_extensions : List TlsExtension → Result Fault (List Json)
normalize_extensions [] = ok []
normalize_extensions (e ∷ es) =
    then_result (normalize_extension e)
      (λ v. then_result (normalize_extensions es) (λ vs. ok (v ∷ vs)))

abbrev pub dynamic : List ℕ → Json
dynamic bytes = str (text "dynamic:" ++ decimal (length bytes))

unfoldable pub normalize_client_hello : ClientHello → Result Fault Json
unfolding normalize_extensions
normalize_client_hello h = then_result (normalize_extensions h.extensions) (λ es. ok (
    dict (
      fields (
        (text "legacy_version", number h.legacy_version)
        ∷ (text "random", dynamic h.random)
        ∷ (text "session_id", dynamic h.session_id)
        ∷ (text "cipher_suites", json_list (map identifier h.cipher_suites))
        ∷ (text "compression_methods", numbers h.compression_methods)
        ∷ (text "extensions", json_list es)
        ∷ []))))
