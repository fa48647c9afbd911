-- ===== src/Api/Added.antt =====
-- _normalize.py: the headers that a call gets added, the User-Agent and the type of a JSON body, are
-- well formed like its own.
use foxreq.Prelude.{
  ℕ, ◌<◌, ◌≡◌, refl, sym, subst, List, [], ◌∷◌, ◌++◌, Bool, true, false, Option, none, some, arith,
  Bool-cases, inl, inr, ◌⊎◌, leb, ltb, ◌==◌, ◌||◌, ◌&&◌, &&-eq-true, if◌then◌else◌,
}
use foxreq.Prelude.Lists.{All, All-append, all}
use foxreq.Prelude.Bytes.{AllBytes}
use foxreq.Prelude.Result.{ok, bind-eq-ok}
use foxreq.Prelude.Text.{Text, text, decimal}
use foxreq.Json.{Items, nil, cons, list, str}
use foxreq.Worker.Request.{Header, headers_json, header_json}
use foxreq.Worker.Process.{lift_error}
use foxreq.Api.Profiles.{
  ProfileSpec, or_error, invalid_request, version_of, platform_token, user_agent_text, get_profile,
}
use foxreq.Api.Arguments.{Value, str, normalize_body, is_token, is_token_char, has_forbidden}
use foxreq.Api.Sendable.{IsHeader, is_token-ascii, or_error-eq-ok}
use foxreq.Api.Requests.{Python, body_and_headers, with_user_agent, has_header}

version_of-major : (id : Text) (v : Text × ℕ) → version_of id ≡ some v → (v.1 ≡ 140) ⊎ (v.1 ≡ 152)
unfolding version_of
version_of-major id v e = ground arith

tokens_of :
    (platform token : Text)
    → platform_token platform ≡ some token
    → (token ≡ text "Windows NT 10.0; Win64; x64") ⊎ (token ≡ text "X11; Linux x86_64")
unfolding platform_token
tokens_of platform token e = ground arith

abbrev is_plain : ℕ → Bool
is_plain c = leb 32 c && ltb c 127

plain_lem : (c : ℕ) → is_plain c ≡ true → ((c == 0 || (c == 10 || c == 13)) ≡ false) × (c < 256)
plain_lem c h = (ground arith, ground arith)

plain_value : (t : Text) → all is_plain t ≡ true → (has_forbidden t ≡ false) × AllBytes t
plain_value [] h = (refl, tt)
plain_value (c ∷ cs) h =
    let (here, there) = &&-eq-true (is_plain c) (all is_plain cs) h in
    let (allowed, byte) = plain_lem c here in
    let (rest, bytes) = plain_value cs there in (rw allowed rest, (byte, bytes))

user_agent_name : is_token (text "User-Agent") ≡ true
unfolding is_token is_token_char
user_agent_name = refl

all-append :
    (xs ys : Text)
    → all is_plain xs ≡ true
    → all is_plain ys ≡ true
    → all is_plain (xs ++ ys) ≡ true
all-append [] ys h k = k
all-append (x ∷ xs) ys h k =
    let (here, there) = &&-eq-true (is_plain x) (all is_plain xs) h in
    rw here (all-append xs ys there k)

windows_plain : all is_plain (text "Windows NT 10.0; Win64; x64") ≡ true
windows_plain = refl

linux_plain : all is_plain (text "X11; Linux x86_64") ≡ true
linux_plain = refl

major_140_plain : all is_plain (decimal 140) ≡ true
unfolding decimal
major_140_plain = refl

major_152_plain : all is_plain (decimal 152) ≡ true
unfolding decimal
major_152_plain = refl

token_plain :
    (token : Text)
    → (token ≡ text "Windows NT 10.0; Win64; x64") ⊎ (token ≡ text "X11; Linux x86_64")
    → all is_plain token ≡ true
token_plain token (inl e) = subst (λ t. all is_plain t ≡ true) (sym e) windows_plain
token_plain token (inr e) = subst (λ t. all is_plain t ≡ true) (sym e) linux_plain

major_plain : (major : ℕ) → (major ≡ 140) ⊎ (major ≡ 152) → all is_plain (decimal major) ≡ true
major_plain major (inl e) = subst (λ n. all is_plain (decimal n) ≡ true) (sym e) major_140_plain
major_plain major (inr e) = subst (λ n. all is_plain (decimal n) ≡ true) (sym e) major_152_plain

agent_text-plain :
    (token digits : Text)
    → all is_plain token ≡ true
    → all is_plain digits ≡ true
    → all is_plain (
        text "Mozilla/5.0 ("
        ++ (token
            ++ (text "; rv:"
                ++ (digits ++ (text ".0) Gecko/20100101 Firefox/" ++ (digits ++ text ".0"))))))
      ≡ true
agent_text-plain token digits t d =
    let last = digits ++ text ".0" in
    let product = text ".0) Gecko/20100101 Firefox/" ++ last in
    let revision = digits ++ product in
    let version = text "; rv:" ++ revision in
    all-append (text "Mozilla/5.0 (") (token ++ version) refl (
      all-append token version t (
        all-append (text "; rv:") revision refl (
          all-append digits product d (
            all-append (text ".0) Gecko/20100101 Firefox/") last refl
              (all-append digits (text ".0") d refl)))))

agent_text-IsHeader :
    (token : Text) (major : ℕ)
    → (token ≡ text "Windows NT 10.0; Win64; x64") ⊎ (token ≡ text "X11; Linux x86_64")
    → (major ≡ 140) ⊎ (major ≡ 152)
    → IsHeader (text "User-Agent", user_agent_text token major)
unfolding user_agent_text
agent_text-IsHeader token major t m =
    let agent = user_agent_text token major in
    let (allowed, bytes) =
      plain_value agent
        (agent_text-plain token (decimal major) (token_plain token t) (major_plain major m)) in
    (user_agent_name, allowed, bytes)

-- The User-Agent of a profile is a header value.
pub agent-IsHeader :
    (platform : Text) (id : Option Text) (profile : ProfileSpec)
    → get_profile platform id ≡ ok profile
    → IsHeader (text "User-Agent", profile.user_agent)
unfolding get_profile
agent-IsHeader platform none profile e = absurd (cc)
agent-IsHeader platform (some id) profile e =
    let (v, p, e) =
      bind-eq-ok (or_error (version_of id) (invalid_request (text "unsupported Firefox profile"))) _
        profile e in
    let (token, q, e) =
      bind-eq-ok
        (or_error (platform_token platform) (invalid_request (text "unsupported profile platform")))
        _ profile e in
    let agent : user_agent_text token v.1 ≡ profile.user_agent = cc in
    subst (λ a. IsHeader (text "User-Agent", a)) agent
      (agent_text-IsHeader token v.1
        (tokens_of platform token (or_error-eq-ok (platform_token platform) _ token q))
        (version_of-major id v (or_error-eq-ok (version_of id) _ v p)))

pub with_user_agent-IsHeader :
    (agent : Text) (hs : List Header)
    → IsHeader (text "User-Agent", agent)
    → All IsHeader hs
    → All IsHeader (with_user_agent agent hs)
unfolding with_user_agent
with_user_agent-IsHeader agent hs good all_good =
    elim (Bool-cases (has_header (text "user-agent") hs)) [
      | inl found ↦ rw found all_good
      | inr missing ↦ rw missing (good, all_good)
    ]

pub headers_json_total :
    (hs : List Header) → All IsHeader hs → (js : Items) × (headers_json hs ≡ some js)
unfolding headers_json header_json
headers_json_total [] good = (nil, refl)
headers_json_total ((name, value) ∷ hs) good =
    let (js, e) = headers_json_total hs good.1 in
    (
      cons (list (cons (str name) (cons (str value) nil))) js,
      rw ((is_token-ascii name good.0.0).0, e) refl,
    )

content_type_name : is_token (text "Content-Type") ≡ true
unfolding is_token is_token_char
content_type_name = refl

content_type-IsHeader : IsHeader (text "Content-Type", text "application/json")
content_type-IsHeader =
    let (allowed, bytes) = plain_value (text "application/json") refl in
    (content_type_name, allowed, bytes)

typed-IsHeader :
    (given : List Header)
    → All IsHeader given
    → All IsHeader (
        if has_header (text "content-type") given
        then given
        else given ++ ((text "Content-Type", text "application/json") ∷ []))
typed-IsHeader given good = elim (Bool-cases (has_header (text "content-type") given)) [
  | inl found ↦ rw found good
  | inr missing ↦ rw missing (
      All-append IsHeader given ((text "Content-Type", text "application/json") ∷ []) good
        (content_type-IsHeader, tt))
]

-- Headers stay well formed when the body's type is added.
pub body_and_headers-IsHeader :
    (python : Python) (body : Option Value) (value : Option python.Object) (given : List Header)
    (c : List ℕ × List Header)
    → body_and_headers python body value given ≡ ok c
    → All IsHeader given
    → All IsHeader c.1
unfolding body_and_headers
body_and_headers-IsHeader python none (some v) given c e good =
    let (b, p, q) =
      bind-eq-ok
        (lift_error
          (or_error (python.dumps v) (invalid_request (text "json value is not serializable"))))
        _ c e in
    let same : (if has_header (text "content-type") given
          then given
          else given ++ ((text "Content-Type", text "application/json") ∷ []))
        ≡ c.1 =
      cc in
    subst (All IsHeader) same (typed-IsHeader given good)
body_and_headers-IsHeader python (some b) (some v) given c e good = absurd (cc)
body_and_headers-IsHeader python none none given c e good =
    let (b, p, q) = bind-eq-ok (normalize_body none) _ c e in
    let same : given ≡ c.1 = cc in subst (All IsHeader) same good
body_and_headers-IsHeader python (some v) none given c e good =
    let (b, p, q) = bind-eq-ok (normalize_body (some v)) _ c e in
    let same : given ≡ c.1 = cc in subst (All IsHeader) same good
