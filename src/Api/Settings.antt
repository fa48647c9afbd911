-- ===== src/Api/Settings.antt =====
-- python/foxreq/_api.py, `Session.__init__`: the arguments that a session keeps.
use foxreq.Prelude.{Option}
use foxreq.Prelude.Result.{Result, ok, ◌>>=◌}
use foxreq.Prelude.Text.{Text}
use foxreq.Prelude.Float.{Float}
use foxreq.Errors.{FoxreqError}
use foxreq.Api.Arguments.{Seconds, normalize_timeout}
use foxreq.Api.Requests.{Python, normalize_profile}
use foxreq.Api.Policy.{VerifyArgument}

-- What a Session is made with: `_runtime_dir_input`, `_verify_input`, `_timeout`, `_impersonate`.
pub record Settings : Type 0 where
  pub runtime_dir : Option (Option Text)
  pub verify : VerifyArgument
  pub timeout : Float
  pub impersonate : Text

unfoldable pub new_settings :
    Python
    → Option (Option Text)
    → VerifyArgument
    → Option Text
    → Seconds
    → Result FoxreqError Settings
new_settings python runtime_dir verify impersonate timeout = do
  t ← normalize_timeout timeout
  profile ← normalize_profile python impersonate
  ok (record { runtime_dir = runtime_dir; verify = verify; timeout = t; impersonate = profile })
