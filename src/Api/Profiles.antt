-- ===== src/Api/Profiles.antt =====
-- python/foxreq/_profiles.py: the profiles and their User-Agent. `sys.platform` is an argument.
use foxreq.Prelude.{ℕ, ◌++◌, Option, none, some, if◌then◌else◌}
use foxreq.Prelude.Result.{Result, ok, err, ◌>>=◌}
use foxreq.Prelude.Text.{Text, text, text_eq, decimal, starts_with}
use foxreq.Errors.{FoxreqError, Kind}

pub record ProfileSpec : Type 0 where
  pub profile_id : Text
  pub firefox_version : Text
  pub major_version : ℕ
  pub user_agent : Text

abbrev pub invalid_request : Text → FoxreqError
invalid_request message = record { kind = Kind.invalid_request; message = message }

-- `_VERSIONS.get(profile_id)`
unfoldable pub version_of : Text → Option (Text × ℕ)
version_of id =
    if text_eq id (text "firefox_140_esr")
    then some (text "140.12.0esr", 140)
    else if text_eq id (text "firefox_152")
    then some (text "152.0.6", 152)
    else none

-- The operating system's part of the User-Agent, none on any other platform.
unfoldable pub platform_token : Text → Option Text
platform_token platform =
    if text_eq platform (text "win32")
    then some (text "Windows NT 10.0; Win64; x64")
    else if starts_with platform (text "linux")
    then some (text "X11; Linux x86_64")
    else none

unfoldable pub user_agent_text : Text → ℕ → Text
user_agent_text token major =
    text "Mozilla/5.0 ("
    ++ (token
        ++ (text "; rv:"
            ++ (decimal major
                ++ (text ".0) Gecko/20100101 Firefox/" ++ (decimal major ++ text ".0")))))

abbrev pub or_error {ℓ} : {A : Type ℓ} → Option A → FoxreqError → Result FoxreqError A
or_error none e = err e
or_error (some a) e = ok a

-- `profile_id` is none where it is no string.
unfoldable pub get_profile : Text → Option Text → Result FoxreqError ProfileSpec
get_profile platform none = err (invalid_request (text "unsupported Firefox profile"))
get_profile platform (some id) = do
  version ← or_error (version_of id) (invalid_request (text "unsupported Firefox profile"))
  token ← or_error (platform_token platform) (invalid_request (text "unsupported profile platform"))
  ok (record {
    profile_id = id;
    firefox_version = version.0;
    major_version = version.1;
    user_agent = user_agent_text token version.1;
  })
