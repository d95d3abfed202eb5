-- ===== src/Auth/Sessions/Lifetime.antt =====
-- How long a refresh token can be used, and what a refresh makes of it.
use task_mgt_app.Base.{
  ℕ, ◌+◌, ◌*◌, ◌≤◌, ◌<◌, String, ◌≡◌, ◌∙◌, ap, false, some, none, arith, str_eq, str_eq_refl, pos,
}
use task_mgt_app.Auth.Index.Tokens.{stored, get-stored, dropped, get-dropped}
use task_mgt_app.Auth.Keys.{refresh_token_key, key_laws}
use task_mgt_app.Auth.Calls.{issue_token_pair_lem}
use task_mgt_app.Auth.Service.{
  bad_refresh, refresh_access_token, issue_token_pair, decode_refresh_token, check_refresh,
}
use task_mgt_app.Auth.Sessions.{IsRefreshToken, refresh_exchanged}
use task_mgt_app.Auth.World.{Env, World, Draws, wait}
use task_mgt_app.Entity.{Uuid}
use task_mgt_app.Errors.{err}
use task_mgt_app.Security.{create_refresh_token, decode_token}
use task_mgt_app.Security.Claims.{
  refresh_payload, decode-create_refresh, decode_refresh_expired, refresh_claims,
}

module _ (env : Env) where
  module _ (d : Draws) (user : Uuid) (w : World env) where
    abbrev lifetime : ℕ
    lifetime = env.settings.refresh_token_expire_days * 86400

    abbrev jti : String
    jti = env.libs.uuid_str d.refresh_jti

    -- The refresh token that `issue_token_pair` returns, and the world that it leaves.
    abbrev pub issued_token : String
    issued_token =
        (create_refresh_token env.libs env.settings w.now d.spare_jti d.refresh_jti user).0

    abbrev pub issued_world : World env
    issued_world = (issue_token_pair env d user w).1

    issued_state : issued_world ≡ record w {
      redis = stored env.redis jti (env.libs.uuid_str user) lifetime w.redis env.positive.refresh;
    }
    issued_state = ap (λ p. p.1) (issue_token_pair_lem env d user w)

    pub issued-IsRefreshToken :
        (n : ℕ)
        → n < lifetime
        → IsRefreshToken env issued_token jti (env.libs.uuid_str user) (w.now + n)
    issued-IsRefreshToken n h =
        let (kind, owner, name) =
          refresh_claims env.libs env.settings w.now d.spare_jti d.refresh_jti user in
        record {
          payload = refresh_payload env.libs env.settings w.now d.spare_jti d.refresh_jti user;
          decodes =
              decode-create_refresh env.libs env.settings w.now (w.now + n) d.spare_jti
                d.refresh_jti user (omega arith) (omega arith);
          kind = kind;
          owner = owner;
          name = name;
        }

    ttl-issued :
        env.redis.ttl
          (refresh_token_key jti)
          (stored env.redis jti (env.libs.uuid_str user) lifetime w.redis env.positive.refresh)
        ≡ pos lifetime
    ttl-issued = simp (env.redis.ttl-sadd, env.redis.ttl-set, env.positive.refresh, key_laws)

    pub issued_entry :
        (n : ℕ)
        → n < lifetime
        → env.redis.get (refresh_token_key jti) (wait n issued_world).redis
          ≡ some (env.libs.uuid_str user)
    unfolding wait
    issued_entry n h = rw issued_state (
        ground (
          arith,
          ttl-issued,
          get-stored env.redis jti (env.libs.uuid_str user) lifetime w.redis env.positive.refresh
              jti,
          str_eq_refl jti,
          env.redis.get-elapse n (refresh_token_key jti)
              (stored env.redis jti (env.libs.uuid_str user) lifetime w.redis env.positive.refresh),
        ))

  pub now-wait :
      (n : ℕ) (d : Draws) (user : Uuid) (w : World env)
      → (wait n (issue_token_pair env d user w).1).now ≡ w.now + n
  unfolding wait
  now-wait n d user w = rw issue_token_pair_lem

  -- Until REFRESH_TOKEN_EXPIRE_DAYS have passed, `refresh_access_token` with the refresh token that
  -- `issue_token_pair` returned removes the token from its key and from its user's set, and issues
  -- a new pair to the same user.
  pub usable_until :
      (d d' : Draws) (user : Uuid) (w : World env) (n : ℕ)
      → n < env.settings.refresh_token_expire_days * 86400
      → refresh_access_token env d' (issued_token d user w) (wait n (issued_world d user w))
        ≡ issue_token_pair env d' user (record (wait n (issued_world d user w)) {
          redis =
              dropped env.redis
                (env.libs.uuid_str d.refresh_jti)
                (env.libs.uuid_str user)
                (wait n (issued_world d user w)).redis;
        })
  usable_until d d' user w n h =
      refresh_exchanged env d' user (wait n (issued_world d user w))
        (rw now-wait (issued-IsRefreshToken d user w n h)) (issued_entry d user w n h)

  pub decode_none :
      (token : String) (w : World env)
      → decode_token env.libs env.settings w.now token ≡ none
      → decode_refresh_token env token w ≡ (err bad_refresh, w)
  unfolding decode_refresh_token check_refresh
  decode_none token w h = rw h

  -- A text that does not decode is refused, and nothing changes.
  pub undecodable_refused :
      (d : Draws) (token : String) (w : World env)
      → decode_token env.libs env.settings w.now token ≡ none
      → refresh_access_token env d token w ≡ (err bad_refresh, w)
  unfolding refresh_access_token
  undecodable_refused d token w h = ground (arith, decode_none token w h)

  -- From REFRESH_TOKEN_EXPIRE_DAYS on, `refresh_access_token` refuses the refresh token that
  -- `issue_token_pair` returned, and changes nothing.
  pub refused_from :
      (d d' : Draws) (user : Uuid) (w : World env) (n : ℕ)
      → env.settings.refresh_token_expire_days * 86400 ≤ n
      → refresh_access_token env d' (issued_token d user w) (wait n (issued_world d user w))
        ≡ (err bad_refresh, wait n (issued_world d user w))
  refused_from d d' user w n h =
      undecodable_refused d' (issued_token d user w) (wait n (issued_world d user w)) (
        rw now-wait (
          decode_refresh_expired env.libs env.settings w.now (w.now + n) d.spare_jti d.refresh_jti
            user (omega arith)))

  -- The pair that `refresh_access_token` returned, and the entry that it took away.
  pub rotated_entry :
      (d : Draws) {token jti : String} (user : Uuid) (w : World env)
      → IsRefreshToken env token jti (env.libs.uuid_str user) w.now
      → env.redis.get (refresh_token_key jti) w.redis ≡ some (env.libs.uuid_str user)
      → str_eq (env.libs.uuid_str d.refresh_jti) jti ≡ false
      → env.redis.get (refresh_token_key jti) (refresh_access_token env d token w).1.redis ≡ none
  rotated_entry d {jti} user w t h fresh =
      rw (refresh_exchanged env d user w t h, issue_token_pair_lem)
        (get-stored env.redis (env.libs.uuid_str d.refresh_jti) (env.libs.uuid_str user) _ _
            env.positive.refresh jti
          ∙ rw fresh
              (get-dropped env.redis jti (env.libs.uuid_str user) w.redis jti ∙ rw str_eq_refl))

  -- Time brings no entry back.
  pub gone_for_good :
      (n : ℕ) (jti : String) (w : World env)
      → env.redis.get (refresh_token_key jti) w.redis ≡ none
      → env.redis.get (refresh_token_key jti) (wait n w).redis ≡ none
  unfolding wait
  gone_for_good n jti w h = ground (arith, env.redis.get-elapse n (refresh_token_key jti) w.redis)
