-- ===== src/Auth/Service.antt =====
-- `class AuthService` of app/auth/service.py, method by method.
use task_mgt_app.Base.{
  ◌*◌, String, Bool, true, false, not, ◌||◌, is_none, Option, none, some, List, [], ◌∷◌, map, leb,
  str_eq, if◌then◌else◌, ℤ, pos, negsuc, ltb,
}
use task_mgt_app.Base.Dict.{Dict, lookup}
use task_mgt_app.Auth.Keys.{
  email_verify_key, login_lock_key, login_attempts_key, pwd_reset_key, refresh_token_key,
  user_tokens_key,
}
use task_mgt_app.Auth.Model.{User, new_user}
use task_mgt_app.Auth.World.{
  Env, Draws, Action, ◌>>=◌, ◌>>◌, pure, raise, lift, or_raise, raise_if, clock, users_get_by_id,
  users_get_by_email, users_add, users_write, redis_get, redis_ttl, redis_smembers, redis_set,
  redis_delete, redis_incr, redis_expire, redis_sadd, redis_srem,
}
use task_mgt_app.Entity.{Uuid}
use task_mgt_app.Errors.{
  Exception, Result, ok, err, app, value_error, key_error, email_already_registered, invalid_token,
  account_locked, invalid_credentials, email_not_verified,
}
use task_mgt_app.Libraries.{Claim, text}
use task_mgt_app.Security.{
  TokenType, value, hash_password, verify_password, create_access_token, create_refresh_token,
  decode_token,
}

abbrev pub bad_verification : Exception
bad_verification = app (invalid_token "Verification link is invalid or has expired.")

abbrev pub bad_reset : Exception
bad_reset = app (invalid_token "Reset link is invalid or has expired.")

abbrev pub bad_refresh : Exception
bad_refresh = app (invalid_token "Refresh token is invalid or has expired.")

abbrev pub bad_credentials : Exception
bad_credentials = app (invalid_credentials "Invalid email or password.")

-- `payload[name]`, where a claim that is no text counts as missing.
unfoldable pub text_claim : String → Dict Claim → Result String
text_claim name payload = elim (lookup name payload) [ some (text s) ↦ ok s | _ ↦ err key_error ]

-- `payload.get("type") == token_type.value`
unfoldable pub has_type : TokenType → Dict Claim → Bool
has_type token_type payload = elim (lookup "type" payload) [
  | some (text s) ↦ str_eq s (value token_type)
  | _ ↦ false
]

module _ (env : Env) where
  unfoldable pub register : Draws → String → String → String → Action env (User × String)
  unfolding hash_password new_user
  register draws email password full_name = do
    let normalized_email : String = env.libs.lower email
    existing ← users_get_by_email env normalized_email
    raise_if (not (is_none existing))
        (app (email_already_registered "An account with this email already exists."))
    now ← clock env
    user ← users_add env (
        new_user draws.id now normalized_email
          (hash_password env.libs env.settings draws.salt password) full_name)
    redis_set env (email_verify_key draws.token) (env.libs.uuid_str user.id)
        (env.settings.email_verification_ttl_hours * 3600)
    pure (user, draws.token)

  unfoldable pub verify_email : String → Action env (Unit {0})
  verify_email token = do
    found ← redis_get env (email_verify_key token)
    user_id ← or_raise found bad_verification
    id ← or_raise (env.libs.uuid_parse user_id) value_error
    row ← users_get_by_id env id
    user ← or_raise row bad_verification
    users_write env (record user { is_email_verified = true })
    redis_delete env (email_verify_key token ∷ [])

  unfoldable pub register_failed_attempt : String → Action env (Unit {0})
  register_failed_attempt email = do
    count ← redis_incr env (login_attempts_key email)
    redis_expire env (login_attempts_key email) (env.settings.login_lockout_minutes * 60)
    if leb env.settings.login_max_attempts count
        then (do
          redis_set env (login_lock_key email) "1" (env.settings.login_lockout_minutes * 60)
          redis_delete env (login_attempts_key email ∷ []))
        else pure tt

  unfoldable pub issue_token_pair : Draws → Uuid → Action env (String × String)
  unfolding create_access_token create_refresh_token
  issue_token_pair draws user_id = do
    now ← clock env
    let access_token : String =
        create_access_token env.libs env.settings now draws.access_jti user_id
    let refresh : String × String =
        create_refresh_token env.libs env.settings now draws.spare_jti draws.refresh_jti user_id
    redis_set env (refresh_token_key refresh.1) (env.libs.uuid_str user_id)
        (env.settings.refresh_token_expire_days * 86400)
    redis_sadd env (user_tokens_key (env.libs.uuid_str user_id)) refresh.1
    pure (access_token, refresh.0)

  unfoldable pub reject_locked : ℤ → Action env (Unit {0})
  reject_locked (pos lock_ttl) =
      if ltb 0 lock_ttl
      then raise (app (account_locked "Too many failed login attempts. Try again later." lock_ttl))
      else pure tt
  reject_locked (negsuc _) = pure tt

  -- `user is not None and verify_password(password, user.password_hash)`
  unfoldable pub credentials_valid : String → Option User → Result Bool
  credentials_valid password none = ok false
  credentials_valid password (some user) =
      verify_password env.libs env.settings password user.password_hash

  unfoldable pub fail_login : String → Action env (String × String)
  fail_login email = do register_failed_attempt email; raise bad_credentials

  -- `login` behind the password check.
  unfoldable pub admit : Draws → String → Bool → Option User → Action env (String × String)
  admit draws email valid none = fail_login email
  admit draws email valid (some user) =
      if not valid || not user.is_active
      then fail_login email
      else if not user.is_email_verified
      then raise (app (email_not_verified "Please verify your email before logging in."))
      else (do
        redis_delete env (login_attempts_key email ∷ login_lock_key email ∷ [])
        issue_token_pair draws user.id)

  unfoldable pub login : Draws → String → String → Action env (String × String)
  login draws email password = do
    let normalized_email : String = env.libs.lower email
    lock_ttl ← redis_ttl env (login_lock_key normalized_email)
    reject_locked lock_ttl
    user ← users_get_by_email env normalized_email
    valid ← lift (credentials_valid password user)
    admit draws normalized_email valid user

  -- `request_password_reset` behind the lookup.
  unfoldable pub issue_reset : Draws → Option User → Action env (Option (User × String))
  issue_reset draws none = pure none
  issue_reset draws (some user) = do
    redis_set env (pwd_reset_key draws.token) (env.libs.uuid_str user.id)
        (env.settings.password_reset_ttl_minutes * 60)
    pure (some (user, draws.token))

  unfoldable pub request_password_reset : Draws → String → Action env (Option (User × String))
  request_password_reset draws email = do
    row ← users_get_by_email env (env.libs.lower email)
    issue_reset draws row

  -- `if jtis: …`
  unfoldable pub delete_tokens : List String → Action env (Unit {0})
  delete_tokens [] = pure tt
  delete_tokens (jti ∷ more) = redis_delete env (map refresh_token_key (jti ∷ more))

  unfoldable pub revoke_all_refresh_tokens : Uuid → Action env (Unit {0})
  revoke_all_refresh_tokens user_id = do
    jtis ← redis_smembers env (user_tokens_key (env.libs.uuid_str user_id))
    delete_tokens jtis
    redis_delete env (user_tokens_key (env.libs.uuid_str user_id) ∷ [])

  unfoldable pub reset_password : Draws → String → String → Action env (Unit {0})
  unfolding hash_password
  reset_password draws token new_password = do
    found ← redis_get env (pwd_reset_key token)
    user_id ← or_raise found bad_reset
    id ← or_raise (env.libs.uuid_parse user_id) value_error
    row ← users_get_by_id env id
    user ← or_raise row bad_reset
    users_write env (record user {
      password_hash = hash_password env.libs env.settings draws.salt new_password;
    })
    redis_delete env (pwd_reset_key token ∷ [])
    revoke_all_refresh_tokens user.id

  unfoldable pub check_refresh : Option (Dict Claim) → Result (Dict Claim)
  check_refresh none = err bad_refresh
  check_refresh (some payload) =
      if has_type TokenType.refresh payload then ok payload else err bad_refresh

  unfoldable pub decode_refresh_token : String → Action env (Dict Claim)
  decode_refresh_token refresh_token w =
      (check_refresh (decode_token env.libs env.settings w.now refresh_token), w)

  -- `stored_user_id is None or stored_user_id != user_id`
  unfoldable pub mismatched : Option String → String → Bool
  mismatched none user_id = true
  mismatched (some stored_user_id) user_id = not (str_eq stored_user_id user_id)

  -- The two removals that end a refresh token: its key, and its entry in the user's set.
  unfoldable pub drop_token : String → String → Action env Uuid
  drop_token jti user_id = do
    redis_delete env (refresh_token_key jti ∷ [])
    id ← or_raise (env.libs.uuid_parse user_id) value_error
    redis_srem env (user_tokens_key (env.libs.uuid_str id)) jti
    pure id

  unfoldable pub refresh_access_token : Draws → String → Action env (String × String)
  refresh_access_token draws refresh_token = do
    payload ← decode_refresh_token refresh_token
    jti ← lift (text_claim "jti" payload)
    user_id ← lift (text_claim "sub" payload)
    stored_user_id ← redis_get env (refresh_token_key jti)
    if mismatched stored_user_id user_id
        then raise bad_refresh
        else (do id ← drop_token jti user_id; issue_token_pair draws id)

  -- `except InvalidTokenError: return`
  unfoldable pub ended : Exception → Result (Unit {0})
  ended (app (invalid_token _)) = ok tt
  ended e = err e

  unfoldable pub logout_payload : Result (Dict Claim) → Action env (Unit {0})
  logout_payload (err e) = lift (ended e)
  logout_payload (ok payload) = do
    jti ← lift (text_claim "jti" payload)
    user_id ← lift (text_claim "sub" payload)
    drop_token jti user_id
    pure tt

  unfoldable pub logout : String → Action env (Unit {0})
  logout refresh_token w = let (r, w') = decode_refresh_token refresh_token w in logout_payload r w'
