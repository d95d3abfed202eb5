-- ===== src/Auth/Reset/Request.antt =====
-- `request_password_reset`: what it returns, and how long its token resets the password.
use task_mgt_app.Base.{
  ℕ, ◌+◌, ◌*◌, String, ◌≡◌, refl, ap, ◌∙◌, none, some, arith, ltb, str_eq_refl, Bool-cases, inl,
  inr, if◌then◌else◌,
}
use task_mgt_app.Auth.Keys.{pwd_reset_key}
use task_mgt_app.Auth.Model.{User}
use task_mgt_app.Auth.Reset.{reset_password_lem, reset_refused}
use task_mgt_app.Auth.Service.{bad_reset, reset_password, request_password_reset, issue_reset}
use task_mgt_app.Auth.World.{Env, World, Draws, wait}
use task_mgt_app.Errors.{ok, err}

module _ (env : Env) where
  issue_reset_lem :
      (d : Draws) (user : User) (w : World env)
      → issue_reset env d (some user) w ≡ (
        ok (some (user, d.token)),
        record w {
          redis =
              env.redis.set
                (pwd_reset_key d.token)
                (env.libs.uuid_str user.id)
                (env.settings.password_reset_ttl_minutes * 60)
                w.redis;
        },
      )
  unfolding issue_reset
  issue_reset_lem d user w = refl

  -- A request for an address that nobody has returns `None` and changes nothing; one for a user's
  -- address returns the user with the new token.
  pub request_unknown :
      (d : Draws) (email : String) (w : World env)
      → env.users.get_by_email (env.libs.lower email) w.users ≡ ok none
      → request_password_reset env d email w ≡ (ok none, w)
  unfolding request_password_reset issue_reset
  request_unknown d email w h = ground arith

  pub request_known :
      (d : Draws) (email : String) (user : User) (w : World env)
      → env.users.get_by_email (env.libs.lower email) w.users ≡ ok (some user)
      → request_password_reset env d email w ≡ (
        ok (some (user, d.token)),
        record w {
          redis =
              env.redis.set
                (pwd_reset_key d.token)
                (env.libs.uuid_str user.id)
                (env.settings.password_reset_ttl_minutes * 60)
                w.redis;
        },
      )
  unfolding request_password_reset
  request_known d email user w h = ground (arith, issue_reset_lem d user w)

  -- What a reset token reads as after a wait.
  requested_entry :
      (d : Draws) (user : String) (w : World env) (n : ℕ)
      → env.redis.get (pwd_reset_key d.token) (
          env.redis.elapse n (
            env.redis.set
              (pwd_reset_key d.token)
              user
              (env.settings.password_reset_ttl_minutes * 60)
              w.redis))
        ≡ (if ltb n (env.settings.password_reset_ttl_minutes * 60) then some user else none)
  requested_entry d user w n =
      simp (
        env.redis.get-elapse, env.redis.ttl-set, env.redis.get-set, env.positive.reset, str_eq_refl,
      )

  -- In a valid user store, after `request_password_reset` for the address of a user,
  -- `reset_password` with the returned token succeeds as long as less than
  -- PASSWORD_RESET_TTL_MINUTES have passed, and from then on answers "Reset link is invalid or has
  -- expired.".
  pub request_then_reset :
      (d d' : Draws) (email password : String) (user : User) (w : World env) (n : ℕ)
      → env.users.IsValid w.users
      → env.users.get_by_email (env.libs.lower email) w.users ≡ ok (some user)
      → (reset_password env d' d.token password (wait n (request_password_reset env d email w).1)).0
        ≡ (if ltb n (env.settings.password_reset_ttl_minutes * 60) then ok tt else err bad_reset)
  unfolding wait
  request_then_reset d d' email password user w n valid found =
      rw (request_known d email user w found)
        (elim (Bool-cases (ltb n (env.settings.password_reset_ttl_minutes * 60))) [
          | inl live ↦ rw live (
              ap (λ p. p.0)
                (reset_password_lem env d' d.token password user (later n) (record {
                  holds = requested_entry d (env.libs.uuid_str user.id) w n ∙ rw live;
                  found =
                      (env.users.get_by_email_sound (env.libs.lower email) user w.users valid
                        found).1;
                })))
          | inr dead ↦ rw dead (
              ap (λ p. p.0)
                (reset_refused env d' d.token password (later n)
                  (requested_entry d (env.libs.uuid_str user.id) w n ∙ rw dead)))
        ])
    where
      later : ℕ → World env
      later n = record {
        users = w.users;
        redis = env.redis.elapse n (
            env.redis.set (pwd_reset_key d.token) (env.libs.uuid_str user.id)
              (env.settings.password_reset_ttl_minutes * 60) w.redis);
        now = w.now + n;
      }
