-- ===== src/Auth/Revoked.antt =====
-- A refresh token whose entry in Redis is gone, for each method of app/auth/service.py: no call
-- brings the entry back, unless it draws the same jti.
pub mod Forever
use task_mgt_app.Base.{
  ℕ, ◌<◌, List, String, ◌≡◌, ◌≢◌, Bool, false, Option, none, some, [], ◌∷◌, ℤ, pos, negsuc, arith,
  str_eq, Option-cases, inl, inr,
}
use task_mgt_app.Base.Dict.{Dict}
use task_mgt_app.Auth.Calls.{issue_token_pair_lem, revoke_all_lem}
use task_mgt_app.Auth.Index.Revoke.{get-revoked}
use task_mgt_app.Auth.Index.Tokens.{get-stored, get-dropped}
use task_mgt_app.Auth.Keys.{
  email_verify_key, login_lock_key, login_attempts_key, pwd_reset_key, refresh_token_key,
  verify-refresh, lock-refresh, attempts-refresh, reset-refresh,
}
use task_mgt_app.Auth.Model.{User}
use task_mgt_app.Auth.Service.{
  register, verify_email, login, request_password_reset, reset_password, refresh_access_token,
  logout, issue_token_pair, register_failed_attempt, revoke_all_refresh_tokens, fail_login, admit,
  reject_locked, issue_reset, drop_token, decode_refresh_token, logout_payload,
}
use task_mgt_app.Auth.World.{
  Env, World, Draws, redis_set, redis_delete, redis_incr, redis_expire, wait,
}
use task_mgt_app.Auth.World.Keeps.{
  Keeps, Keeps-pure, Keeps-raise, Keeps-lift, Keeps-or_raise, Keeps-read, Keeps-if, Keeps-bind,
}
use task_mgt_app.Entity.{Uuid}
use task_mgt_app.Errors.{Result, ok, err}
use task_mgt_app.Libraries.{Claim}

-- The jti that a call may draw for a refresh token is another.
abbrev pub Avoids : Env → String → Draws → Type 0
Avoids env jti draws = str_eq (env.libs.uuid_str draws.refresh_jti) jti ≡ false

module _ (env : Env) (jti owner : String) where
  -- Redis does not hold the token for the owner.
  abbrev pub Absent : World env → Type 0
  Absent w = env.redis.get (refresh_token_key jti) w.redis ≢ some owner

  set-Absent :
      (k v : String) (ex : ℕ)
      → 0 < ex
      → str_eq k (refresh_token_key jti) ≡ false
      → Keeps Absent (redis_set env k v ex)
  set-Absent k v ex p other = record {
    at = λ w h e. h (ground (arith, env.redis.get-set k (refresh_token_key jti) v ex w.redis p));
  }

  delete-Absent : (ks : List String) → Keeps Absent (redis_delete env ks)
  delete-Absent ks = record {
    at = λ w h e. h (ground (arith, env.redis.get-delete ks (refresh_token_key jti) w.redis));
  }

  users-Absent :
      {A : Type 0} (f : env.users.State → Result A × env.users.State)
      → Keeps Absent (λ w. ((f w.users).0, record w { users = (f w.users).1 }))
  users-Absent f = record { at = λ w h. h }

  incr-Absent :
      (k : String) → str_eq k (refresh_token_key jti) ≡ false → Keeps Absent (redis_incr env k)
  incr-Absent k other = record {
    at = λ w h e. h (ground (arith, env.redis.get-incr k (refresh_token_key jti) w.redis other));
  }

  expire-Absent : (k : String) (n : ℕ) → 0 < n → Keeps Absent (redis_expire env k n)
  expire-Absent k n p = record {
    at = λ w h e. h (ground (arith, env.redis.get-expire k (refresh_token_key jti) n w.redis p));
  }

  revoke-Absent : (user : Uuid) → Keeps Absent (revoke_all_refresh_tokens env user)
  revoke-Absent user = record {
    at = λ w h.
        rw revoke_all_lem
          λ e. h (ground (arith, get-revoked env.redis (env.libs.uuid_str user) w.redis jti));
  }

  issue-Absent :
      (draws : Draws) (user : Uuid)
      → Avoids env jti draws
      → Keeps Absent (issue_token_pair env draws user)
  issue-Absent draws user other = record {
    at = λ w h. rw issue_token_pair_lem λ e. h (
        ground (
          arith,
          get-stored env.redis (env.libs.uuid_str draws.refresh_jti) (env.libs.uuid_str user) _
              w.redis env.positive.refresh jti,
        ));
  }

  ruleset absent_rules = (
    Keeps-pure, Keeps-raise, Keeps-lift, Keeps-or_raise, Keeps-read, Keeps-if, Keeps-bind,
    users-Absent, set-Absent, delete-Absent, incr-Absent, expire-Absent, verify-refresh,
    lock-refresh, attempts-refresh, reset-refresh, issue-Absent, revoke-Absent,
  )

  pub register-Absent :
      (draws : Draws) (email password name : String)
      → Keeps Absent (register env draws email password name)
  unfolding register
  register-Absent draws email password name =
      search (absent_rules, env.positive.verification) depth 12

  pub verify_email-Absent : (token : String) → Keeps Absent (verify_email env token)
  unfolding verify_email
  verify_email-Absent token = search absent_rules depth 12

  attempt-Absent : (e : String) → Keeps Absent (register_failed_attempt env e)
  unfolding register_failed_attempt
  attempt-Absent e = search (absent_rules, env.positive.lockout) depth 12

  fail_login-Absent : (e : String) → Keeps Absent (fail_login env e)
  unfolding fail_login
  fail_login-Absent e = search (absent_rules, attempt-Absent) depth 12

  admit-Absent :
      (draws : Draws) (e : String) (valid : Bool) (row : Option User)
      → Avoids env jti draws
      → Keeps Absent (admit env draws e valid row)
  unfolding admit
  admit-Absent draws e valid none other = fail_login-Absent e
  admit-Absent draws e valid (some user) other = search (absent_rules, fail_login-Absent) depth 12

  reject_locked-Absent : (t : ℤ) → Keeps Absent (reject_locked env t)
  unfolding reject_locked
  reject_locked-Absent (pos n) = search absent_rules
  reject_locked-Absent (negsuc n) = search absent_rules

  pub login-Absent :
      (draws : Draws) (email password : String)
      → Avoids env jti draws
      → Keeps Absent (login env draws email password)
  unfolding login
  login-Absent draws email password other =
      search (absent_rules, reject_locked-Absent, admit-Absent) depth 12

  issue_reset-Absent :
      (draws : Draws) (row : Option User) → Keeps Absent (issue_reset env draws row)
  unfolding issue_reset
  issue_reset-Absent draws none = search absent_rules
  issue_reset-Absent draws (some user) = search (absent_rules, env.positive.reset) depth 12

  pub request_password_reset-Absent :
      (draws : Draws) (email : String) → Keeps Absent (request_password_reset env draws email)
  unfolding request_password_reset
  request_password_reset-Absent draws email = search (absent_rules, issue_reset-Absent) depth 12

  pub reset_password-Absent :
      (draws : Draws) (token password : String)
      → Keeps Absent (reset_password env draws token password)
  unfolding reset_password
  reset_password-Absent draws token password = search absent_rules depth 14

  drop_token-Absent : (j user_id : String) → Keeps Absent (drop_token env j user_id)
  unfolding drop_token
  drop_token-Absent j user_id = record {
    at = λ w h. elim (Option-cases (env.libs.uuid_parse user_id)) [
      | inl bad ↦ rw bad ((delete-Absent (refresh_token_key j ∷ [])).at w h)
      | inr (id, parsed) ↦
          rw parsed
            λ e. h (ground (arith, get-dropped env.redis j (env.libs.uuid_str id) w.redis jti))
    ];
  }

  decode-Absent : (token : String) → Keeps Absent (decode_refresh_token env token)
  unfolding decode_refresh_token
  decode-Absent token = record { at = λ w h. h }

  pub refresh-Absent :
      (draws : Draws) (token : String)
      → Avoids env jti draws
      → Keeps Absent (refresh_access_token env draws token)
  unfolding refresh_access_token
  refresh-Absent draws token other =
      search (absent_rules, decode-Absent, drop_token-Absent) depth 14

  logout_payload-Absent : (r : Result (Dict Claim)) → Keeps Absent (logout_payload env r)
  unfolding logout_payload
  logout_payload-Absent (err e) = search absent_rules
  logout_payload-Absent (ok payload) = search (absent_rules, drop_token-Absent) depth 14

  pub logout-Absent : (token : String) → Keeps Absent (logout env token)
  unfolding logout
  logout-Absent token = record {
    at = λ w h.
        let (r, w') = decode_refresh_token env token w in
        (logout_payload-Absent r).at w' ((decode-Absent token).at w h);
  }
