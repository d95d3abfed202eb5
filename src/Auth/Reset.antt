-- ===== src/Auth/Reset.antt =====
-- The password reset: `reset_password` of app/auth/service.py, and what it does to sessions.
pub mod Request
use task_mgt_app.Base.{
  ℕ, String, ◌≡◌, ◌≢◌, refl, ==_refl, ap, ◌∙◌, true, none, some, [], ◌∷◌, arith,
}
use task_mgt_app.Auth.Index.Revoke.{revoked, revoked_all, get-revoked_other, ttl-revoked_other}
use task_mgt_app.Auth.Index.{delete_other}
use task_mgt_app.Auth.Keys.{
  refresh_token_key, pwd_reset_key, login_lock_key, refresh-reset, user-reset, refresh-lock,
  user-lock, key_laws,
}
use task_mgt_app.Auth.Login.{IsOpen, login_passes}
use task_mgt_app.Auth.Model.{User}
use task_mgt_app.Auth.Calls.{revoke_all_lem, issue_token_pair_lem}
use task_mgt_app.Auth.Good.{Good, reset_key-Good}
use task_mgt_app.Auth.Service.{bad_refresh, bad_reset, refresh_access_token, reset_password, login}
use task_mgt_app.Auth.Sessions.{IsRefreshToken, refresh_refused}
use task_mgt_app.Auth.World.{Env, World, Draws, wait}
use task_mgt_app.Errors.{ok, err}
use task_mgt_app.Security.{hash_password, verify_password}

module _ (env : Env) where
  -- The row of a user with a new password.
  abbrev pub with_password : Draws → String → User → User
  with_password d password user = record user {
    password_hash = hash_password env.libs env.settings d.salt password;
  }

  -- A token that Redis holds for a user that the store finds.
  pub record IsResetToken (token : String) (user : User) (w : World env) : Type 0 where
    pub holds : env.redis.get (pwd_reset_key token) w.redis ≡ some (env.libs.uuid_str user.id)
    pub found : env.users.get_by_id user.id w.users ≡ ok (some user)

  pub reset_password_lem :
      (d : Draws) (token password : String) (user : User) (w : World env)
      → IsResetToken token user w
      → reset_password env d token password w ≡ (
        ok tt,
        record w {
          users = env.users.write (with_password d password user) w.users;
          redis =
              revoked env.redis
                (env.libs.uuid_str user.id)
                (env.redis.delete (pwd_reset_key token ∷ []) w.redis);
        },
      )
  unfolding reset_password
  reset_password_lem d token password user w t = ground (
    arith,
    env.libs.uuid_parse-uuid_str user.id,
    revoke_all_lem env user.id (record w {
      users = env.users.write (with_password d password user) w.users;
      redis = env.redis.delete (pwd_reset_key token ∷ []) w.redis;
    }),
  )

  pub absent-wait :
      (n : ℕ) (jti user : String) (w : World env)
      → env.redis.get (refresh_token_key jti) w.redis ≢ some user
      → env.redis.get (refresh_token_key jti) (wait n w).redis ≢ some user
  unfolding wait
  absent-wait n jti user w h e =
      h (ground (arith, env.redis.get-elapse n (refresh_token_key jti) w.redis))

  pub revoked_tokens :
      (d : Draws) (token password : String) (user : User) (w : World env)
      → Good env w
      → IsResetToken token user w
      → (jti : String)
      → env.redis.get (refresh_token_key jti) (reset_password env d token password w).1.redis
        ≢ some (env.libs.uuid_str user.id)
  revoked_tokens d token password user w good t jti =
      rw (reset_password_lem d token password user w t) (
        revoked_all env.redis (env.libs.uuid_str user.id) _
          (delete_other env.redis (pwd_reset_key token ∷ []) w.redis (reset_key-Good env token)
            good)
          jti)

  pub reset_refused :
      (d : Draws) (token password : String) (w : World env)
      → env.redis.get (pwd_reset_key token) w.redis ≡ none
      → reset_password env d token password w ≡ (err bad_reset, w)
  unfolding reset_password
  reset_refused d token password w h = ground arith

  reset_gone :
      (d : Draws) (token password : String) (user : User) (w : World env)
      → IsResetToken token user w
      → env.redis.get (pwd_reset_key token) (reset_password env d token password w).1.redis ≡ none
  reset_gone d token password user w t = rw (reset_password_lem d token password user w t) (
      get-revoked_other env.redis (env.libs.uuid_str user.id) _ (pwd_reset_key token)
        (λ j. refresh-reset j token) (λ u. user-reset u token)
      ∙ simp (env.redis.get-delete, key_laws))

  -- A reset token that leads to a user works once: directly behind `reset_password` a second call
  -- with the token is refused, and changes nothing.
  pub reset_once :
      (d d' : Draws) (token password password' : String) (user : User) (w : World env)
      → IsResetToken token user w
      → reset_password env d' token password' (reset_password env d token password w).1
        ≡ (err bad_reset, (reset_password env d token password w).1)
  reset_once d d' token password password' user w t =
      reset_refused d' token password' (reset_password env d token password w).1
        (reset_gone d token password user w t)

  ttl-reset :
      (d : Draws) (token password email : String) (user : User) (w : World env)
      → IsResetToken token user w
      → env.redis.ttl (login_lock_key email) (reset_password env d token password w).1.redis
        ≡ env.redis.ttl (login_lock_key email) w.redis
  ttl-reset d token password email user w t = rw (reset_password_lem d token password user w t) (
      ttl-revoked_other env.redis (env.libs.uuid_str user.id) _ (login_lock_key email)
        (λ j. refresh-lock j email) (λ u. user-lock u email)
      ∙ simp (env.redis.ttl-delete, key_laws))

  users-reset :
      (d : Draws) (token password email : String) (user : User) (w : World env)
      → env.users.IsValid w.users
      → IsResetToken token user w
      → user.deleted_at ≡ none
      → env.users.get_by_email email w.users ≡ ok (some user)
      → env.users.get_by_email email (reset_password env d token password w).1.users
        ≡ ok (some (with_password d password user))
  users-reset d token password email user w valid t live found =
      rw (reset_password_lem d token password user w t) (
        env.users.get_by_email-write email (with_password d password user) user user w.users valid
          t.found refl live found
        ∙ rw ==_refl)

  pub verify-hash :
      (salt : ℕ) (password : String)
      → verify_password env.libs env.settings password
          (hash_password env.libs env.settings salt password)
        ≡ ok true
  unfolding verify_password hash_password
  verify-hash salt password = rw env.libs.argon_verify-argon_hash

  -- In a valid user store, let a reset token lead to a live, active and verified user whom the
  -- store finds for an unlocked address. After `reset_password` a login with the address and the
  -- new password returns tokens.
  pub login_after_reset :
      (d d' : Draws) (token password email : String) (user : User) (w : World env)
      → env.users.IsValid w.users
      → IsResetToken token user w
      → env.users.get_by_email (env.libs.lower email) w.users ≡ ok (some user)
      → IsOpen (env.redis.ttl (login_lock_key (env.libs.lower email)) w.redis)
      → user.deleted_at ≡ none
      → user.is_active ≡ true
      → user.is_email_verified ≡ true
      → (tokens : String × String) × ((login env d' email password
            (reset_password env d token password w).1).0
          ≡ ok tokens)
  login_after_reset d d' token password email user w valid t found o live active verified = (
    _,
    ap (λ p. p.0)
        (login_passes env d' email password (with_password d password user)
            (reset_password env d token password w).1
            (rw (ttl-reset d token password (env.libs.lower email) user w t) o)
            (users-reset d token password (env.libs.lower email) user w valid t live found)
            (verify-hash d.salt password) active verified
          ∙ issue_token_pair_lem env d' user.id _),
  )
