-- ===== src/Auth/Calls.antt =====
-- What the two helpers of app/auth/service.py that every session goes through write to Redis.
use task_mgt_app.Base.{◌*◌, ◌≡◌, refl, arith}
use task_mgt_app.Auth.Index.Tokens.{stored}
use task_mgt_app.Auth.Index.Revoke.{revoked}
use task_mgt_app.Auth.Service.{issue_token_pair, revoke_all_refresh_tokens, delete_tokens}
use task_mgt_app.Auth.World.{Env, World, Draws}
use task_mgt_app.Entity.{Uuid}
use task_mgt_app.Errors.{ok}
use task_mgt_app.Security.{create_access_token, create_refresh_token}

module _ (env : Env) where
  pub issue_token_pair_lem :
      (draws : Draws) (user : Uuid) (w : World env)
      → issue_token_pair env draws user w ≡ (
        ok (
          create_access_token env.libs env.settings w.now draws.access_jti user,
          (create_refresh_token env.libs env.settings w.now draws.spare_jti draws.refresh_jti
              user).0,
        ),
        record w {
          redis =
              stored env.redis
                (env.libs.uuid_str draws.refresh_jti)
                (env.libs.uuid_str user)
                (env.settings.refresh_token_expire_days * 86400)
                w.redis
                env.positive.refresh;
        },
      )
  unfolding issue_token_pair
  issue_token_pair_lem draws user w = refl

  pub revoke_all_lem :
      (user : Uuid) (w : World env)
      → revoke_all_refresh_tokens env user w
        ≡ (ok tt, record w { redis = revoked env.redis (env.libs.uuid_str user) w.redis })
  unfolding revoke_all_refresh_tokens delete_tokens
  revoke_all_lem user w = ground arith
