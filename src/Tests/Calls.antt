-- ===== src/Tests/Calls.antt =====
-- python/foxreq/_normalize.py and _api.py at small inputs.
use foxreq.Prelude.{
  List, Option, ℕ, ◌≡◌, refl, [], ◌∷◌, ◌++◌, true, none, some, map, leb, ◌&&◌, ◌-◌, if◌then◌else◌,
  arith,
}
use foxreq.Prelude.Result.{ok}
use foxreq.Prelude.Text.{Text, text, ascii, strip, decimal, is_space, separated, is_empty}
use foxreq.Json.{Fields}
use foxreq.Worker.Request.{request_metadata, decode_request}
use foxreq.Api.Arguments.{
  normalize_method, normalize_headers, header_bytes, normalize_timeout, str, octets, pair, sequence,
  as_float,
}
use foxreq.Api.Profiles.{get_profile, version_of, platform_token, user_agent_text}
use foxreq.Api.Requests.{Python, Call, NormalizedRequest, normalize_request}
use foxreq.Api.Session.{native_request}
use foxreq.Api.Pem.{bytes, is_break, read_pem_bundle}
use foxreq.Api.Bundle.{
  Part, note, block, lines_of, printed, certificates, IsPart, IsBodyLine, read_pem_bundle-printed,
}
use foxreq.Prelude.Lists.{All}
use foxreq.Api.Delivered.{UrlsHaveScheme, decode_request-normalize_request}

abbrev pub upper : Text → Text
upper t = map (λ c. if leb 97 c && leb c 122 then c - 32 else c) t

-- A library that knows one host.
abbrev pub python : Python
python = record {
  Params = Text;
  Object = Text;
  lower = λ t. t;
  upper = upper;
  split_url = λ t. some (record {
    scheme = text "https";
    path = [];
    query = [];
    hostname = some (text "a.org");
    username = none;
    password = none;
    port = none;
  });
  ip_address = λ t. none;
  idna = some;
  quote_path = some;
  quote_query = some;
  urlencode = some;
  unsplit_url = λ scheme authority path query.
      if is_empty scheme
      then authority ++ (path ++ query)
      else scheme ++ (text "://" ++ (authority ++ (path ++ query)));
  dumps = some;
  platform = text "linux";
}

-- 1.0 as a float
abbrev pub one_second : ℕ
one_second = 0x3ff0000000000000

abbrev pub call : Call python
call = record {
  method = str (text " get ");
  url = str (text "https://a.org");
  params = none;
  headers = sequence (pair (octets (text "X-A")) (octets (text "b")) ∷ []);
  body = none;
  json_value = some (text "1");
  timeout = as_float (some one_second);
  impersonate = some (text "firefox_152");
}

abbrev normalized : NormalizedRequest
normalized = record {
  method = text "GET";
  url = text "https://a.org/";
  scheme = text "https";
  headers =
      (
        text "User-Agent",
        text "Mozilla/5.0 (X11; Linux x86_64; rv:152.0) Gecko/20100101 Firefox/152.0",
      )
      ∷ (text "X-A", text "b")
      ∷ (text "Content-Type", text "application/json")
      ∷ [];
  body = text "1";
  timeout = one_second;
  profile = text "firefox_152";
}

call-normalized : normalize_request python call ≡ ok normalized
unfolding normalize_request normalize_method ascii strip normalize_headers header_bytes get_profile
    version_of platform_token normalize_timeout user_agent_text decimal
call-normalized = refl

urls_have_scheme : UrlsHaveScheme python
urls_have_scheme [] authority path query filled e = filled refl
urls_have_scheme (c ∷ cs) authority path query filled e = cc

decode_request-normalize_request_example :
    (f : Fields) × (request_metadata 1 normalized.profile (native_request normalized true) ≡ some f)
    × (decode_request (λ i. none) f normalized.body normalized.profile
        ≡ ok (1, native_request normalized true))
decode_request-normalize_request_example =
    decode_request-normalize_request python call normalized true 1 (λ i. none) call-normalized
      (omega arith) urls_have_scheme (omega arith)

abbrev der_of : Text → Option (List ℕ)
der_of t = some (1 ∷ [])

-- A comment, an empty line and a certificate.
abbrev parts : List Part
parts = note (text "#") ∷ note [] ∷ block (text "A" ∷ []) (1 ∷ []) ∷ []

body_line : IsBodyLine (text "A")
unfolding is_break strip is_space
body_line = record { line = (refl, tt); bare = refl; no_begin = refl; no_end = refl }

parts-IsPart : All (IsPart der_of) parts
unfolding is_break strip is_space separated
parts-IsPart = (((refl, tt), refl), ((tt, refl), (((body_line, tt), refl, λ e. cc), tt)))

parts_plain : ascii (printed (lines_of parts)) ≡ some (printed (lines_of parts))
unfolding ascii
parts_plain = refl

read_pem_bundle-printed_example :
    read_pem_bundle der_of (bytes (printed (lines_of parts))) ≡ ok (certificates parts)
read_pem_bundle-printed_example =
    read_pem_bundle-printed der_of parts parts-IsPart (λ e. cc) (omega arith) parts_plain
