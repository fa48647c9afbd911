-- ===== src/Api/Sendable.antt =====
-- _normalize.py: the headers, the method and the timeout that a call is let through with.
use foxreq.Prelude.{
  ℕ, ◌≡◌, refl, sym, List, [], ◌∷◌, ◌++◌, Bool, true, false, Option, none, some, not, ◌&&◌, arith,
  Bool-cases, inl, inr, ltb, ltb→lt, &&-eq-true, ◌≢◌,
}
use foxreq.Prelude.Lists.{All, All-append, all}
use foxreq.Prelude.Bytes.{AllBytes}
use foxreq.Prelude.Result.{Result, ok, err, bind-eq-ok}
use foxreq.Prelude.Text.{Text, text, ascii, latin_1, strip}
use foxreq.Prelude.Float.{Float, is_finite, is_positive}
use foxreq.Errors.{FoxreqError}
use foxreq.Worker.Request.{Header}
use foxreq.Worker.Process.{lift_error}
use foxreq.Api.Profiles.{or_error, invalid_request}
use foxreq.Api.Arguments.{
  Value, str, octets, other, is_token_char, is_token, checked, normalize_method, Label,
  header_bytes, HeaderItem, pair, text_like, not_pair, HeadersArgument, absent, not_iterable,
  sequence, has_forbidden, header_round, header_loop, normalize_headers, Seconds, flag, as_float,
  normalize_timeout,
}

-- A token as name, and a value of bytes with no NUL, line feed or carriage return.
abbrev pub IsHeader : Header → Type 0
IsHeader (name, value) = (is_token name ≡ true) × (has_forbidden value ≡ false) × AllBytes value

-- What Python's `bytes` are.
abbrev pub HasBytes : Value → Type 0
HasBytes (octets b) = AllBytes b
HasBytes _ = Unit {0}

abbrev pub ItemHasBytes : HeaderItem → Type 0
ItemHasBytes (pair n v) = HasBytes v
ItemHasBytes _ = Unit {0}

abbrev pub HeadersHaveBytes : HeadersArgument → Type 0
HeadersHaveBytes (sequence items) = All ItemHasBytes items
HeadersHaveBytes _ = Unit {0}

pub lift_error-eq-ok :
    {A : Type 0} (r : Result FoxreqError A) (a : A) → lift_error r ≡ ok a → r ≡ ok a
lift_error-eq-ok (ok b) a e = cc
lift_error-eq-ok (err x) a e = absurd (cc)

pub or_error-eq-ok :
    {A : Type 0} (o : Option A) (e : FoxreqError) (a : A) → or_error o e ≡ ok a → o ≡ some a
or_error-eq-ok none e a h = absurd (cc)
or_error-eq-ok (some b) e a h = cc

pub checked-eq-ok :
    {A : Type 0} (test : Bool) (message : Text) (a b : A)
    → checked test message a ≡ ok b
    → (test ≡ true) × (a ≡ b)
checked-eq-ok true message a b h = (refl, cc)
checked-eq-ok false message a b h = absurd (cc)

bytes_of_all : (t : Text) → all (λ c. ltb c 256) t ≡ true → AllBytes t
bytes_of_all [] h = tt
bytes_of_all (c ∷ cs) h =
    let (here, there) = &&-eq-true (ltb c 256) (all (λ c. ltb c 256) cs) h in
    (ltb→lt c 256 here, bytes_of_all cs there)

latin_1-AllBytes : (t : Text) (b : List ℕ) → latin_1 t ≡ some b → AllBytes b
unfolding latin_1
latin_1-AllBytes t b e = elim (Bool-cases (all (λ c. ltb c 256) t)) [
  | inl yes' ↦ let same : t ≡ b = ground arith in rw (sym same) (bytes_of_all t yes')
  | inr no' ↦ absurd (ground arith)
]

header_bytes-AllBytes :
    (v : Value) (b : List ℕ) → HasBytes v → header_bytes v Label.value ≡ ok b → AllBytes b
unfolding header_bytes
header_bytes-AllBytes (str t) b h e = latin_1-AllBytes t b (or_error-eq-ok (latin_1 t) _ b e)
header_bytes-AllBytes (octets o) b h e = let same : o ≡ b = cc in rw (sym same) h
header_bytes-AllBytes other b h e = absurd (cc)

header_round-IsHeader :
    (item : HeaderItem) (h : Header) → ItemHasBytes item → header_round item ≡ ok h → IsHeader h
unfolding header_round
header_round-IsHeader (pair n v) h bytes e =
    let (name, p, e) = bind-eq-ok (header_bytes n Label.name) _ h e in
    let (value, q, e) = bind-eq-ok (header_bytes v Label.value) _ h e in
    let (name', p', e) =
      bind-eq-ok (checked (is_token name) (text "header name is not a valid HTTP token") name) _ h
        e in
    let (value', q', e) =
      bind-eq-ok
        (checked (not (has_forbidden value)) (text "header value contains a forbidden byte") value)
        _ h e in
    let (token, same) = checked-eq-ok (is_token name) _ name name' p' in
    let (allowed, same') = checked-eq-ok (not (has_forbidden value)) _ value value' q' in
    let pair_eq : (name, value) ≡ h = cc in
    rw (sym pair_eq) (token, ground arith, header_bytes-AllBytes v value bytes q)
header_round-IsHeader text_like h bytes e = absurd (cc)
header_round-IsHeader not_pair h bytes e = absurd (cc)

header_loop-IsHeader :
    (done : List Header) (items : List HeaderItem) (hs : List Header)
    → All IsHeader done
    → All ItemHasBytes items
    → header_loop done items ≡ ok hs
    → All IsHeader hs
unfolding header_loop
header_loop-IsHeader done [] hs good bytes e = let same : done ≡ hs = cc in rw (sym same) good
header_loop-IsHeader done (item ∷ items) hs good bytes e =
    let (h, p, q) = bind-eq-ok (header_round item) _ hs e in
    header_loop-IsHeader (done ++ (h ∷ [])) items hs
      (All-append IsHeader done (h ∷ []) good (header_round-IsHeader item h bytes.0 p, tt)) bytes.1
      q

pub normalize_headers-IsHeader :
    (argument : HeadersArgument) (hs : List Header)
    → HeadersHaveBytes argument
    → normalize_headers argument ≡ ok hs
    → All IsHeader hs
unfolding normalize_headers
normalize_headers-IsHeader absent hs bytes e = let same : [] ≡ hs = cc in rw (sym same) tt
normalize_headers-IsHeader not_iterable hs bytes e = absurd (cc)
normalize_headers-IsHeader (sequence items) hs bytes e = header_loop-IsHeader [] items hs tt bytes e

pub normalize_method-is_token :
    (upper : Text → Text) (v : Value) (m : List ℕ)
    → normalize_method upper v ≡ ok m
    → is_token m ≡ true
unfolding normalize_method
normalize_method-is_token upper (str t) m e =
    let (method, p, q) =
      bind-eq-ok
        (or_error (ascii (upper (strip t))) (invalid_request (text "method must be ASCII")))
        (λ b. checked (is_token b) (text "method is not a valid HTTP token") b) m e in
    let (token, same) =
      checked-eq-ok (is_token method) (text "method is not a valid HTTP token") method m q in
    rw (sym same) token
normalize_method-is_token upper (octets b) m e = absurd (cc)
normalize_method-is_token upper other m e = absurd (cc)

pub normalize_timeout_lem :
    (s : Seconds) (t : Float)
    → normalize_timeout s ≡ ok t
    → (is_finite t ≡ true) × (is_positive t ≡ true)
unfolding normalize_timeout
normalize_timeout_lem (flag b) t e = absurd (cc)
normalize_timeout_lem (as_float none) t e = absurd (cc)
normalize_timeout_lem (as_float (some x)) t e = elim (Bool-cases (is_finite x && is_positive x)) [
  | inl both ↦
      let same : x ≡ t = ground arith in
      rw (sym same) (&&-eq-true (is_finite x) (is_positive x) both)
  | inr one ↦ absurd (ground arith)
]

is_token_char-ascii : (c : ℕ) → is_token_char c ≡ true → ltb c 128 ≡ true
unfolding is_token_char
is_token_char-ascii c h = ground arith

all_ascii : (name : List ℕ) → all is_token_char name ≡ true → all (λ c. ltb c 128) name ≡ true
all_ascii [] h = refl
all_ascii (c ∷ cs) h =
    let (here, there) = &&-eq-true (is_token_char c) (all is_token_char cs) h in
    rw (is_token_char-ascii c here) (all_ascii cs there)

-- A token is kept by the ASCII codec, and is not empty.
pub is_token-ascii : (name : List ℕ) → is_token name ≡ true → (ascii name ≡ some name) × (name ≢ [])
unfolding is_token ascii
is_token-ascii [] h = absurd (cc)
is_token-ascii (c ∷ cs) h = (rw (all_ascii (c ∷ cs) h) refl, λ e. cc)
