-- ===== src/Auth/Concurrent.antt =====
-- `refresh_access_token` of app/auth/service.py as a coroutine that runs from one command of Redis to
-- the next, and two of them side by side: at every `await` the other one may go on.
pub mod Race
pub mod Logins
use task_mgt_app.Base.{
  ◌*◌, String, ◌≡◌, refl, Option, none, some, List, [], ◌∷◌, arith, if◌then◌else◌,
}
use task_mgt_app.Auth.Keys.{refresh_token_key, user_tokens_key}
use task_mgt_app.Auth.Service.{
  bad_refresh, text_claim, refresh_access_token, issue_token_pair, decode_refresh_token, mismatched,
  drop_token,
}
use task_mgt_app.Auth.World.{Env, World, Draws, Action, ◌>>=◌, pure, raise, lift, redis_get}
use task_mgt_app.Entity.{Uuid}
use task_mgt_app.Errors.{Result, ok, err, value_error}
use task_mgt_app.Security.{create_access_token, create_refresh_token}

-- Where a call of `refresh_access_token` stands.
pub data Coroutine : Type 0 where
  called : Draws → (refresh_token : String) → Coroutine
  found : Draws → (jti user_id : String) → Coroutine
  removed : Draws → (jti user_id : String) → Coroutine
  unlisted : Draws → Uuid → Coroutine
  kept : (user_id : Uuid) (jti : String) → String × String → Coroutine
  returned : Result (String × String) → Coroutine

module _ (env : Env) where
  -- Up to the check of the stored id.
  unfoldable pub read_entry : String → Action env (String × String)
  unfolding decode_refresh_token text_claim mismatched
  read_entry refresh_token = do
    payload ← decode_refresh_token env refresh_token
    jti ← lift (text_claim "jti" payload)
    user_id ← lift (text_claim "sub" payload)
    stored_user_id ← redis_get env (refresh_token_key jti)
    if mismatched env stored_user_id user_id then raise bad_refresh else pure (jti, user_id)

  abbrev pub checked : Draws → Result (String × String) × World env → Coroutine × World env
  checked draws (ok (jti, user_id), w) = (found draws jti user_id, w)
  checked draws (err e, w) = (returned (err e), w)

  abbrev pub unlist : Draws → String → Option Uuid → World env → Coroutine × World env
  unlist draws jti none w = (returned (err value_error), w)
  unlist draws jti (some user_id) w = (
    unlisted draws user_id,
    record w { redis = env.redis.srem (user_tokens_key (env.libs.uuid_str user_id)) jti w.redis },
  )

  abbrev pub keep : Uuid → String → String × String → World env → Coroutine × World env
  keep user_id access_token refresh w = (
    kept user_id refresh.1 (access_token, refresh.0),
    record w {
      redis =
          env.redis.set (refresh_token_key refresh.1) (env.libs.uuid_str user_id)
            (env.settings.refresh_token_expire_days * 86400) w.redis;
    },
  )

  -- On to the answer of the next command.
  unfoldable pub advance : Coroutine → World env → Coroutine × World env
  unfolding read_entry create_access_token create_refresh_token
  advance (called draws refresh_token) w = checked draws (read_entry refresh_token w)
  advance (found draws jti user_id) w = (
    removed draws jti user_id,
    record w { redis = env.redis.delete (refresh_token_key jti ∷ []) w.redis },
  )
  advance (removed draws jti user_id) w = unlist draws jti (env.libs.uuid_parse user_id) w
  advance (unlisted draws user_id) w =
      keep user_id (create_access_token env.libs env.settings w.now draws.access_jti user_id)
        (create_refresh_token env.libs env.settings w.now draws.spare_jti draws.refresh_jti user_id)
        w
  advance (kept user_id jti pair) w = (
    returned (ok pair),
    record w { redis = env.redis.sadd (user_tokens_key (env.libs.uuid_str user_id)) jti w.redis },
  )
  advance (returned r) w = (returned r, w)

  -- A call that nobody interrupts: five commands.
  abbrev pub undisturbed : Coroutine → World env → Coroutine × World env
  undisturbed c w =
      let (c1, w1) = advance c w in
      let (c2, w2) = advance c1 w1 in
      let (c3, w3) = advance c2 w2 in let (c4, w4) = advance c3 w3 in advance c4 w4

  pub undisturbed_lem :
      (draws : Draws) (refresh_token : String) (w : World env)
      → undisturbed (called draws refresh_token) w ≡ (
        returned (refresh_access_token env draws refresh_token w).0,
        (refresh_access_token env draws refresh_token w).1,
      )
  unfolding advance read_entry refresh_access_token drop_token issue_token_pair
  undisturbed_lem draws refresh_token w = ground arith
