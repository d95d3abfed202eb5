-- ===== src/Auth/Sessions.antt =====
-- The life of a refresh token: issued, usable until it expires, rotated by a refresh, ended by a
-- logout. Here: how `refresh_access_token` ends.
pub mod Lifetime
pub mod Logout
use task_mgt_app.Base.{
  ℕ, ◌+◌, ◌*◌, ◌≤◌, ◌<◌, String, ◌≡◌, ◌≢◌, refl, sym, ◌∙◌, true, false, Option, none, some, arith,
  str_eq, str_eq_iff, str_eq_refl, str_eq_ne, ap, pos, Option-cases, inl, inr,
}
use task_mgt_app.Base.Dict.{Dict, lookup}
use task_mgt_app.Auth.Index.Tokens.{stored, get-stored, dropped, get-dropped}
use task_mgt_app.Auth.Keys.{refresh_token_key, user_tokens_key, key_laws}
use task_mgt_app.Auth.Calls.{issue_token_pair_lem}
use task_mgt_app.Auth.Service.{
  bad_refresh, has_type, text_claim, refresh_access_token, logout, issue_token_pair,
  decode_refresh_token, check_refresh, mismatched, drop_token, logout_payload,
}
use task_mgt_app.Auth.World.{Env, World, Draws, wait}
use task_mgt_app.Entity.{Uuid, Instant}
use task_mgt_app.Errors.{ok, err}
use task_mgt_app.Libraries.{Claim, text}
use task_mgt_app.Security.{
  TokenType, value, decode_token, create_access_token, create_refresh_token,
}
use task_mgt_app.Security.Claims.{
  refresh_payload, decode-create_refresh, decode_refresh_expired, refresh_claims,
}

module _ (env : Env) where
  -- What makes a text a refresh token of a user at an instant: it decodes, and its claims say so.
  pub record IsRefreshToken (token jti user : String) (now : Instant) : Type 0 where
    pub payload : Dict Claim
    pub decodes : decode_token env.libs env.settings now token ≡ some payload
    pub kind : lookup "type" payload ≡ some (text "refresh")
    pub owner : lookup "sub" payload ≡ some (text user)
    pub name : lookup "jti" payload ≡ some (text jti)

  has_type_refresh :
      (payload : Dict Claim)
      → lookup "type" payload ≡ some (text "refresh")
      → has_type TokenType.refresh payload ≡ true
  unfolding has_type value
  has_type_refresh payload h = rw (h, has_type)

  pub text_claim_lem :
      (name s : String) (payload : Dict Claim)
      → lookup name payload ≡ some (text s)
      → text_claim name payload ≡ ok s
  unfolding text_claim
  text_claim_lem name s payload h = rw (h, text_claim)

  pub decode_refresh_token_lem :
      {token jti user : String} (w : World env) (t : IsRefreshToken token jti user w.now)
      → decode_refresh_token env token w ≡ (ok t.payload, w)
  unfolding decode_refresh_token check_refresh
  decode_refresh_token_lem w t = rw (t.decodes, has_type_refresh t.payload t.kind)

  pub mismatched_ne :
      (o : Option String) (user : String) → o ≢ some user → mismatched env o user ≡ true
  unfolding mismatched
  mismatched_ne none user h = refl
  mismatched_ne (some u) user h = rw (str_eq_ne u user (λ e. h (ap some e)))

  pub mismatched_same : (user : String) → mismatched env (some user) user ≡ false
  unfolding mismatched
  mismatched_same user = rw str_eq_refl

  -- A token whose entry is gone, or is another user's, is refused, and nothing changes.
  pub refresh_refused :
      (d : Draws) {token jti user : String} (w : World env)
      → IsRefreshToken token jti user w.now
      → env.redis.get (refresh_token_key jti) w.redis ≢ some user
      → refresh_access_token env d token w ≡ (err bad_refresh, w)
  unfolding refresh_access_token
  refresh_refused d {jti} {user} w t h = ground (
    arith,
    decode_refresh_token_lem w t,
    text_claim_lem "jti" jti t.payload t.name,
    text_claim_lem "sub" user t.payload t.owner,
    mismatched_ne (env.redis.get (refresh_token_key jti) w.redis) user h,
  )

  pub drop_token_lem :
      (jti : String) (user : Uuid) (w : World env)
      → drop_token env jti (env.libs.uuid_str user) w
        ≡ (ok user, record w { redis = dropped env.redis jti (env.libs.uuid_str user) w.redis })
  unfolding drop_token
  drop_token_lem jti user w = rw env.libs.uuid_parse-uuid_str

  -- A token whose entry is there is exchanged: its entry goes, and a new pair is issued.
  pub refresh_exchanged :
      (d : Draws) {token jti : String} (user : Uuid) (w : World env)
      → IsRefreshToken token jti (env.libs.uuid_str user) w.now
      → env.redis.get (refresh_token_key jti) w.redis ≡ some (env.libs.uuid_str user)
      → refresh_access_token env d token w
        ≡ issue_token_pair env d user
            (record w { redis = dropped env.redis jti (env.libs.uuid_str user) w.redis })
  unfolding refresh_access_token
  refresh_exchanged d {jti} user w t h = ground (
    arith,
    decode_refresh_token_lem w t,
    text_claim_lem "jti" jti t.payload t.name,
    text_claim_lem "sub" (env.libs.uuid_str user) t.payload t.owner,
    mismatched_same (env.libs.uuid_str user),
    drop_token_lem jti user w,
  )
