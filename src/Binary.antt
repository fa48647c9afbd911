-- ===== src/Binary.antt =====
-- tools/fingerprint/binary.py and errors.py: the bounded reader. A method changes the reader and
-- may raise `ParseError`; a raise ends the reader's life, so no state comes back beside it.
pub mod Reads
pub mod Consumes
pub mod Halts
pub mod Fields
pub mod Outcomes
pub mod Failures
use foxreq.Prelude.{ℕ, zero, suc, ◌+◌, ◌-◌, ◌*◌, ltb, if◌then◌else◌, List, [], ◌∷◌, ℤ, pos, negsuc}
use foxreq.Prelude.Lists
use foxreq.Prelude.Lists.{length}
use foxreq.Prelude.Bytes.{from_big}
use foxreq.Prelude.Result.{Result, ok, err}
use foxreq.Prelude.Text.{Text}

-- The messages that the tool raises, with the numbers that they format.
pub data Message : Type 0 where
  negative_size truncated_input trailing_bytes : Message
  odd_u16_vector empty_cipher_suites empty_compression_methods : Message
  duplicate_extension unexpected_content_type : ℕ → Message
  not_client_hello : Message
  invalid_preface reserved_stream_bit : Message
  invalid_settings_frame settings_ack_not_empty invalid_settings_length : Message
  duplicate_setting : ℕ → Message
  invalid_window_update invalid_window_increment : Message
  server_name_not_ascii alpn_not_ascii : Message
  unsupported_tls_version : ℕ → Message

pub record ParseError : Type 0 where
  pub message : Message
  pub offset : ℕ
  pub path : Text

-- `out_of_fuel` is no Python behaviour: a loop of the model ran out of its rounds.
pub data Fault : Type 0 where
  raised : ParseError → Fault
  out_of_fuel : Fault

pub record Reader : Type 0 where
  pub bytes : List ℕ
  pub cursor : ℕ
  pub base_offset : ℕ
  pub path : Text

abbrev pub Parser {ℓ} : Type ℓ → Type ℓ
Parser A = Reader → Result Fault (A × Reader)

-- `Reader(data, base_offset, path)`
unfoldable pub reader : List ℕ → ℕ → Text → Reader
reader bytes base_offset path = record {
  bytes = bytes;
  cursor = 0;
  base_offset = base_offset;
  path = path;
}

unfoldable pub remaining : Reader → ℕ
remaining r = length r.bytes - r.cursor

unfoldable pub offset : Reader → ℕ
offset r = r.base_offset + r.cursor

module _ {ℓ} {A : Type ℓ} where
  unfoldable pub pure : A → Parser A
  pure a r = ok (a, r)

  -- `raise ParseError(message, offset, path)`
  unfoldable pub raise : Message → ℕ → Text → Parser A
  raise message at path r =
      err (Fault.raised (record { message = message; offset = at; path = path }))

abbrev continue {ℓ κ} :
    {A : Type ℓ} {B : Type κ}
    → Result Fault (A × Reader)
    → (A → Parser B)
    → Result Fault (B × Reader)
continue (ok (a, r)) f = f a r
continue (err e) f = err e

infixl 5 ◌>>=◌ ◌>>◌
unfoldable pub ◌>>=◌ {ℓ κ} : {A : Type ℓ} {B : Type κ} → Parser A → (A → Parser B) → Parser B
◌>>=◌ m f r = continue (m r) f

abbrev pub ◌>>◌ {ℓ κ} : {A : Type ℓ} {B : Type κ} → Parser A → Parser B → Parser B
m >> k = m >>= λ _. k

-- The value of a run whose reader is dropped.
abbrev pub result_of {ℓ} : {A : Type ℓ} → Result Fault (A × Reader) → Result Fault A
result_of (ok (a, r)) = ok a
result_of (err e) = err e

unfoldable pub get_offset : Parser ℕ
get_offset r = ok (offset r, r)

unfoldable pub get_remaining : Parser ℕ
get_remaining r = ok (remaining r, r)

-- `take(size)`
unfoldable pub take : ℤ → Parser (List ℕ)
take (negsuc n) r = raise Message.negative_size (offset r) r.path r
take (pos size) r =
    if ltb (remaining r) size
    then raise Message.truncated_input (offset r) r.path r
    else ok (Lists.take size (Lists.drop r.cursor r.bytes), record r { cursor = r.cursor + size })

-- `data[0]` of the one byte that `take(1)` returns
unfoldable pub first : List ℕ → ℕ
first [] = 0
first (b ∷ bs) = b

unfoldable pub u8 : Parser ℕ
unfolding first
u8 = do bytes ← take (pos 1); pure (first bytes)

-- `int.from_bytes(self.take(size), "big")`
unfoldable pub uint : ℕ → Parser ℕ
uint size = do bytes ← take (pos size); pure (from_big bytes)

unfoldable pub u16 : Parser ℕ
unfolding uint
u16 = uint 2

unfoldable pub u24 : Parser ℕ
unfolding uint
u24 = uint 3

unfoldable pub vector_u8 : Parser (List ℕ)
vector_u8 = do size ← u8; take (pos size)

unfoldable pub vector_u16 : Parser (List ℕ)
vector_u16 = do size ← u16; take (pos size)

unfoldable pub subreader : ℕ → Text → Parser Reader
subreader size path = do start ← get_offset; bytes ← take (pos size); pure (reader bytes start path)

unfoldable pub finish : Parser (Unit {0})
finish r =
    if ltb 0 (remaining r) then raise Message.trailing_bytes (offset r) r.path r else ok (tt, r)

-- `while reader.remaining: body`, over the loop's variables `s`
unfoldable pub loop {ℓ} : {S : Type ℓ} → ℕ → (S → Parser S) → S → Parser S
loop zero body s r = if ltb 0 (remaining r) then err Fault.out_of_fuel else ok (s, r)
loop (suc fuel) body s r =
    let rest = continue (body s r) (loop fuel body) in
    if ltb 0 (remaining r) then rest else ok (s, r)

-- A method called on another reader than the current one: that reader's state is dropped here.
unfoldable pub on {ℓ} : {A : Type ℓ} → Reader → Parser A → Parser A
on other m r = continue (m other) (λ a r'. ok (a, r))

-- As many rounds as there are bytes left: a round that takes a byte at least cannot exhaust them.
unfoldable pub while_remaining {ℓ} : {S : Type ℓ} → (S → Parser S) → S → Parser S
unfolding loop
while_remaining body s = do size ← get_remaining; loop size body s
