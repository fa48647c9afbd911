-- ===== src/Api/Arguments.antt =====
-- python/foxreq/_normalize.py: what becomes of the method, the headers, the body and the timeout of a
-- call. `str.upper` is a parameter.
use foxreq.Prelude.{
  ℕ, List, [], ◌∷◌, ◌++◌, Bool, Option, none, some, not, ◌||◌, ◌&&◌, ◌==◌, leb, map, ◌+◌,
  if◌then◌else◌,
}
use foxreq.Prelude.Lists.{all, any, contains}
use foxreq.Prelude.Result.{Result, ok, err, ◌>>=◌}
use foxreq.Prelude.Text.{Text, text, ascii, latin_1, utf_8, strip, is_empty}
use foxreq.Prelude.Float.{Float, is_finite, is_positive}
use foxreq.Errors.{FoxreqError}
use foxreq.Worker.Request.{Header}
use foxreq.Worker.Process.{Failure, raises, system}
use foxreq.Api.Profiles.{invalid_request, or_error}

-- An argument: a `str`, bytes-like, or any other object.
pub data Value : Type 0 where
  str : Text → Value
  octets : List ℕ → Value
  other : Value

abbrev is_letter_or_digit : ℕ → Bool
is_letter_or_digit c = (leb 48 c && leb c 57) || ((leb 65 c && leb c 90) || (leb 97 c && leb c 122))

-- `byte in _HEADER_TOKEN`
unfoldable pub is_token_char : ℕ → Bool
is_token_char c = is_letter_or_digit c || contains c (text "!#$%&'*+-.^_`|~")

-- `not name or any(byte not in _HEADER_TOKEN for byte in name)`, negated
unfoldable pub is_token : List ℕ → Bool
unfolding is_token_char
is_token name = not (is_empty name) && all is_token_char name

-- `byte.lower()` of ASCII bytes
abbrev pub lower_bytes : List ℕ → List ℕ
lower_bytes b = map (λ c. if leb 65 c && leb c 90 then 32 + c else c) b

abbrev pub checked {ℓ} : {A : Type ℓ} → Bool → Text → A → Result FoxreqError A
checked test message a = if test then ok a else err (invalid_request message)

unfoldable pub normalize_method : (Text → Text) → Value → Result FoxreqError (List ℕ)
unfolding is_token
normalize_method upper (str value) = do
  method ← or_error (ascii (upper (strip value))) (invalid_request (text "method must be ASCII"))
  checked (is_token method) (text "method is not a valid HTTP token") method
normalize_method upper _ = err (invalid_request (text "method must be a string"))

-- Which part of a header, and the encoding of its text.
pub data Label : Type 0 where
  name value : Label

abbrev label_text : Label → Text
label_text name = text "name"
label_text value = text "value"

abbrev encoding_text : Label → Text
encoding_text name = text "ascii"
encoding_text value = text "latin-1"

abbrev encode : Label → Text → Option (List ℕ)
encode name t = ascii t
encode value t = latin_1 t

unfoldable pub header_bytes : Value → Label → Result FoxreqError (List ℕ)
header_bytes (str t) label = or_error (encode label t) (
    invalid_request (
      text "header "
      ++ (label_text label ++ (text " cannot be encoded as " ++ encoding_text label))))
header_bytes (octets b) label = ok b
header_bytes other label =
    err
      (invalid_request (text "header " ++ (label_text label ++ text " must be str or bytes-like")))

-- An item: what unpacks to two objects, what is text or bytes itself, and the rest.
pub data HeaderItem : Type 0 where
  pair : Value → Value → HeaderItem
  text_like not_pair : HeaderItem

-- The argument `headers`; a mapping is its items.
pub data HeadersArgument : Type 0 where
  absent not_iterable : HeadersArgument
  sequence : List HeaderItem → HeadersArgument

abbrev pub not_pairs : FoxreqError
not_pairs = invalid_request (text "headers must be a mapping or pair sequence")

-- `any(byte in (0, 10, 13) for byte in header_value)`
abbrev pub has_forbidden : List ℕ → Bool
has_forbidden = any (λ c. c == 0 || (c == 10 || c == 13))

unfoldable pub header_round : HeaderItem → Result FoxreqError Header
unfolding is_token
header_round text_like = err (invalid_request (text "header item must be a name/value pair"))
header_round not_pair = err not_pairs
header_round (pair n v) = do
  n ← header_bytes n name
  v ← header_bytes v value
  n ← checked (is_token n) (text "header name is not a valid HTTP token") n
  v ← checked (not (has_forbidden v)) (text "header value contains a forbidden byte") v
  ok (n, v)

unfoldable pub header_loop : List Header → List HeaderItem → Result FoxreqError (List Header)
unfolding header_round
header_loop normalized [] = ok normalized
header_loop normalized (item ∷ items) =
    header_round item >>= λ h. header_loop (normalized ++ (h ∷ [])) items

unfoldable pub normalize_headers : HeadersArgument → Result FoxreqError (List Header)
unfolding header_loop
normalize_headers absent = ok []
normalize_headers not_iterable = err not_pairs
normalize_headers (sequence items) = header_loop [] items

abbrev pub or_system {ℓ} : {A : Type ℓ} → Option A → Result Failure A
or_system none = err system
or_system (some a) = ok a

-- A text that UTF-8 cannot encode raises a UnicodeEncodeError, which is not caught.
unfoldable pub normalize_body : Option Value → Result Failure (List ℕ)
normalize_body none = ok []
normalize_body (some (str t)) = or_system (utf_8 t)
normalize_body (some (octets b)) = ok b
normalize_body (some other) = err (raises (invalid_request (text "data must be str or bytes-like")))

-- The argument `timeout`: a bool, or what `float(value)` gives, none where it raises.
pub data Seconds : Type 0 where
  flag : Bool → Seconds
  as_float : Option Float → Seconds

abbrev pub invalid_timeout : FoxreqError
invalid_timeout = invalid_request (text "timeout must be a finite positive number")

unfoldable pub normalize_timeout : Seconds → Result FoxreqError Float
normalize_timeout (flag b) = err invalid_timeout
normalize_timeout (as_float none) = err invalid_timeout
normalize_timeout (as_float (some t)) =
    if not (is_finite t) || not (is_positive t) then err invalid_timeout else ok t
