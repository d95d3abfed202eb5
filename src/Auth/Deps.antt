-- ===== src/Auth/Deps.antt =====
-- `get_current_user` of app/auth/deps.py.
use task_mgt_app.Base.{String, Option, none, some, if◌then◌else◌}
use task_mgt_app.Base.Dict.{Dict}
use task_mgt_app.Auth.Model.{User}
use task_mgt_app.Auth.Service.{text_claim, has_type}
use task_mgt_app.Auth.World.{
  Env, Action, ◌>>=◌, pure, raise, lift, or_raise, clock, users_get_by_id,
}
use task_mgt_app.Errors.{Exception, Result, ok, err, app, value_error, invalid_credentials}
use task_mgt_app.Libraries.{Claim}
use task_mgt_app.Security.{TokenType, decode_token}

abbrev pub bad_token : Exception
bad_token = app (invalid_credentials "Invalid or expired token.")

module _ (env : Env) where
  unfoldable pub check_access : Option (Dict Claim) → Result (Dict Claim)
  check_access none = err bad_token
  check_access (some payload) =
      if has_type TokenType.access payload then ok payload else err bad_token

  -- `get_current_user` of app/auth/deps.py, for the credentials of the bearer header.
  unfoldable pub get_current_user : String → Action env User
  get_current_user credentials = do
    now ← clock env
    payload ← lift (check_access (decode_token env.libs env.settings now credentials))
    sub ← lift (text_claim "sub" payload)
    id ← or_raise (env.libs.uuid_parse sub) value_error
    row ← users_get_by_id env id
    user ← or_raise row bad_token
    if user.is_active then pure user else raise bad_token
