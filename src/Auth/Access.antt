-- ===== src/Auth/Access.antt =====
-- Access tokens: what `get_current_user` accepts, and for how long.
use task_mgt_app.Base.{
  ℕ, ◌+◌, ◌*◌, ◌<◌, String, ◌≡◌, refl, ap, ◌∙◌, ==_refl, true, none, some, arith, str_eq,
  if◌then◌else◌,
}
use task_mgt_app.Base.Dict.{Dict, lookup}
use task_mgt_app.Auth.Model.{User}
use task_mgt_app.Auth.Reset.{IsResetToken, with_password, reset_password_lem}
use task_mgt_app.Auth.Deps.{bad_token, check_access, get_current_user}
use task_mgt_app.Auth.Service.{
  bad_refresh, has_type, check_refresh, reset_password, refresh_access_token, decode_refresh_token,
}
use task_mgt_app.Auth.Sessions.{IsRefreshToken, text_claim_lem}
use task_mgt_app.Auth.World.{Env, World, Draws}
use task_mgt_app.Entity.{Uuid, Instant}
use task_mgt_app.Errors.{ok, err}
use task_mgt_app.Libraries.{Claim, text}
use task_mgt_app.Security.{TokenType, value, decode_token, create_access_token}
use task_mgt_app.Security.Claims.{access_payload, decode-create_access, access_claims}

module _ (env : Env) where
  -- What makes a text an access token of a user at an instant.
  pub record IsAccessToken (token user : String) (now : Instant) : Type 0 where
    pub payload : Dict Claim
    pub decodes : decode_token env.libs env.settings now token ≡ some payload
    pub kind : lookup "type" payload ≡ some (text "access")
    pub owner : lookup "sub" payload ≡ some (text user)

  has_type_of :
      (t : TokenType) (s : String) (payload : Dict Claim)
      → lookup "type" payload ≡ some (text s)
      → has_type t payload ≡ str_eq s (value t)
  unfolding has_type
  has_type_of t s payload h = rw (h, has_type)

  -- For an access token of a user that the store finds, `get_current_user` returns the user if the
  -- account is active, answers "Invalid or expired token." if it is not, and changes nothing.
  pub current_user :
      {token : String} (id : Uuid) (user : User) (w : World env)
      → IsAccessToken token (env.libs.uuid_str id) w.now
      → env.users.get_by_id id w.users ≡ ok (some user)
      → get_current_user env token w ≡ (if user.is_active then ok user else err bad_token, w)
  unfolding get_current_user check_access
  current_user {token} id user w t h = ground (
    arith,
    has_type_of TokenType.access "access" t.payload t.kind,
    access_value,
    text_claim_lem env "sub" (env.libs.uuid_str id) t.payload t.owner,
    env.libs.uuid_parse-uuid_str id,
  )
    where
      access_value : str_eq "access" (value TokenType.access) ≡ true
      access_value = unfold value in refl

  -- No account of that id, or one that is deleted: refused.
  pub current_user_unknown :
      {token : String} (id : Uuid) (w : World env)
      → IsAccessToken token (env.libs.uuid_str id) w.now
      → env.users.get_by_id id w.users ≡ ok none
      → get_current_user env token w ≡ (err bad_token, w)
  unfolding get_current_user check_access value
  current_user_unknown {token} id w t h = ground (
    arith,
    has_type_of TokenType.access "access" t.payload t.kind,
    text_claim_lem env "sub" (env.libs.uuid_str id) t.payload t.owner,
    env.libs.uuid_parse-uuid_str id,
  )

  pub issued-IsAccessToken :
      (iat : Instant) (jti user : Uuid) (n : ℕ)
      → n < env.settings.access_token_expire_minutes * 60
      → IsAccessToken
          (create_access_token env.libs env.settings iat jti user)
          (env.libs.uuid_str user)
          (iat + n)
  issued-IsAccessToken iat jti user n h =
      let (kind, owner) = access_claims env.libs env.settings iat jti user in
      record {
        payload = access_payload env.libs env.settings iat jti user;
        decodes =
            decode-create_access env.libs env.settings iat (iat + n) jti user (omega arith)
              (omega arith);
        kind = kind;
        owner = owner;
      }

  -- An access token is refused by `refresh_access_token` and a refresh token by `get_current_user`,
  -- and neither call changes anything.
  pub kinds_apart :
      {access refresh user jti : String} (d : Draws) (w : World env)
      → IsAccessToken access user w.now
      → IsRefreshToken env refresh jti user w.now
      → (refresh_access_token env d access w ≡ (err bad_refresh, w))
        × (get_current_user env refresh w ≡ (err bad_token, w))
  unfolding refresh_access_token decode_refresh_token check_refresh get_current_user check_access
      value
  kinds_apart d w a r = (
    ground (arith, has_type_of TokenType.refresh "access" a.payload a.kind, a.decodes),
    ground (arith, has_type_of TokenType.access "refresh" r.payload r.kind, r.decodes),
  )

  -- In a valid user store, let a reset token lead to a live and active user who also has an access
  -- token. After `reset_password` the access token still lets the user in, with the new password
  -- hash in the row.
  pub access_survives_reset :
      (d : Draws) {access token : String} (password : String) (user : User) (w : World env)
      → env.users.IsValid w.users
      → IsResetToken env token user w
      → user.deleted_at ≡ none
      → user.is_active ≡ true
      → IsAccessToken access (env.libs.uuid_str user.id) w.now
      → (get_current_user env access (reset_password env d token password w).1).0
        ≡ ok (with_password env d password user)
  access_survives_reset d {token = token} password user w valid t live active a =
      rw (reset_password_lem env d token password user w t) (
        ap (λ p. p.0)
          (current_user user.id (with_password env d password user) _ a (
            env.users.get_by_id-write user.id (with_password env d password user) user w.users valid
              t.found live
            ∙ rw ==_refl))
        ∙ rw active)
