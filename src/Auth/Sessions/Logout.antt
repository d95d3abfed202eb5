-- ===== src/Auth/Sessions/Logout.antt =====
-- `logout` of app/auth/service.py, with a refresh token and with other texts.
use task_mgt_app.Base.{ℕ, String, ◌≡◌, ap, ◌∙◌, false, none, some, arith, str_eq, str_eq_refl}
use task_mgt_app.Auth.Index.Tokens.{dropped, get-dropped}
use task_mgt_app.Auth.Keys.{refresh_token_key}
use task_mgt_app.Auth.Service.{
  bad_refresh, refresh_access_token, logout, logout_payload, ended, check_refresh,
  decode_refresh_token, has_type,
}
use task_mgt_app.Auth.Sessions.{
  IsRefreshToken, decode_refresh_token_lem, text_claim_lem, drop_token_lem, refresh_refused,
}
use task_mgt_app.Auth.Sessions.Lifetime.{gone_for_good, decode_none}
use task_mgt_app.Auth.World.{Env, World, Draws, wait}
use task_mgt_app.Entity.{Uuid}
use task_mgt_app.Errors.{ok, err}
use task_mgt_app.Libraries.{Claim}
use task_mgt_app.Base.Dict.{Dict}
use task_mgt_app.Security.{TokenType, decode_token}

module _ (env : Env) where
  pub logout_lem :
      {token jti : String} (user : Uuid) (w : World env)
      → IsRefreshToken env token jti (env.libs.uuid_str user) w.now
      → logout env token w
        ≡ (ok tt, record w { redis = dropped env.redis jti (env.libs.uuid_str user) w.redis })
  unfolding logout logout_payload
  logout_lem {jti} user w t = ground (
    arith,
    decode_refresh_token_lem env w t,
    text_claim_lem env "jti" jti t.payload t.name,
    text_claim_lem env "sub" (env.libs.uuid_str user) t.payload t.owner,
    drop_token_lem env jti user w,
  )

  pub logout_entry :
      {token jti : String} (user : Uuid) (w : World env)
      → IsRefreshToken env token jti (env.libs.uuid_str user) w.now
      → env.redis.get (refresh_token_key jti) (logout env token w).1.redis ≡ none
  logout_entry {jti = jti} user w t =
      rw (logout_lem user w t)
        (get-dropped env.redis jti (env.libs.uuid_str user) w.redis jti ∙ rw str_eq_refl)

  -- `logout` with a refresh token returns normally. At any later time, as long as the token still
  -- decodes, `refresh_access_token` refuses it and changes nothing; and the entry of a token with
  -- another jti is as it was.
  logout_ends :
      (d : Draws) {token jti : String} (user : Uuid) (w : World env) (n : ℕ) (j : String)
      → IsRefreshToken env token jti (env.libs.uuid_str user) w.now
      → IsRefreshToken env token jti (env.libs.uuid_str user) (wait n (logout env token w).1).now
      → str_eq jti j ≡ false
      → ((logout env token w).0 ≡ ok tt)
        × (refresh_access_token env d token (wait n (logout env token w).1)
            ≡ (err bad_refresh, wait n (logout env token w).1))
        × (env.redis.get (refresh_token_key j) (logout env token w).1.redis
            ≡ env.redis.get (refresh_token_key j) w.redis)
  logout_ends d {token} {jti} user w n j t later other = (
    ap (λ p. p.0) (logout_lem user w t),
    refresh_refused env d (wait n (logout env token w).1) later
        (λ e. cc (e, gone_for_good env n jti (logout env token w).1 (logout_entry user w t))),
    rw (logout_lem user w t)
        (get-dropped env.redis jti (env.libs.uuid_str user) w.redis j ∙ rw other),
  )

  -- A text that does not decode, and a valid token of another type, change nothing, and `logout`
  -- returns as if it had ended a session.
  pub logout_garbage :
      (token : String) (w : World env)
      → decode_token env.libs env.settings w.now token ≡ none
      → logout env token w ≡ (ok tt, w)
  unfolding logout logout_payload ended
  logout_garbage token w h = ground (arith, decode_none env token w h)

  -- For a token that decodes but has not the type of a refresh token, `logout` returns normally,
  -- `refresh_access_token` answers "Refresh token is invalid or has expired.", and neither changes
  -- anything.
  logout_wrong_type :
      (token : String) (payload : Dict Claim) (w : World env)
      → decode_token env.libs env.settings w.now token ≡ some payload
      → has_type TokenType.refresh payload ≡ false
      → (logout env token w ≡ (ok tt, w))
        × ((d : Draws) → refresh_access_token env d token w ≡ (err bad_refresh, w))
  unfolding logout logout_payload ended decode_refresh_token check_refresh refresh_access_token
  logout_wrong_type token payload w h k = (ground arith, λ d. ground arith)
