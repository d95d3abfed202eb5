-- ===== src/Auth/Good.antt =====
-- The invariant of the refresh tokens, for each method of app/auth/service.py.
use task_mgt_app.Base.{
  ℕ, ◌<◌, List, String, Bool, Option, none, some, [], ◌∷◌, ℤ, pos, negsuc, Option-cases, inl, inr,
}
use task_mgt_app.Base.Dict.{Dict}
use task_mgt_app.Libraries.{Claim}
use task_mgt_app.Auth.Index.{
  IsIndexed, IsOther, AllOther, set_other, delete_other, incr_other, expire_other,
}
use task_mgt_app.Auth.Index.Tokens.{store_token, drop_token-IsIndexed, delete_token-IsIndexed}
use task_mgt_app.Auth.Index.Revoke.{revoked-IsIndexed}
use task_mgt_app.Auth.Calls.{issue_token_pair_lem, revoke_all_lem}
use task_mgt_app.Auth.Keys.{
  email_verify_key, login_lock_key, login_attempts_key, pwd_reset_key, verify-refresh, verify-user,
  lock-refresh, lock-user, attempts-refresh, attempts-user, reset-refresh, reset-user,
}
use task_mgt_app.Auth.Model.{User}
use task_mgt_app.Auth.Service.{
  register, verify_email, login, request_password_reset, reset_password, refresh_access_token,
  logout, issue_token_pair, register_failed_attempt, revoke_all_refresh_tokens, fail_login, admit,
  reject_locked, issue_reset, drop_token, decode_refresh_token, logout_payload,
}
use task_mgt_app.Auth.World.{Env, World, Draws, redis_set, redis_delete, redis_incr, redis_expire}
use task_mgt_app.Auth.World.Keeps.{
  Keeps, Keeps-pure, Keeps-raise, Keeps-lift, Keeps-or_raise, Keeps-read, Keeps-if, Keeps-bind,
}
use task_mgt_app.Entity.{Uuid}
use task_mgt_app.Errors.{Result, ok, err}
use task_mgt_app.Redis.{Redis}

module _ (redis : Redis) where
  verify-IsOther : (token : String) → IsOther redis (email_verify_key token)
  verify-IsOther t = record { no_token = verify-refresh t; no_set = verify-user t }

  lock-IsOther : (e : String) → IsOther redis (login_lock_key e)
  lock-IsOther e = record { no_token = lock-refresh e; no_set = lock-user e }

  attempts-IsOther : (e : String) → IsOther redis (login_attempts_key e)
  attempts-IsOther e = record { no_token = attempts-refresh e; no_set = attempts-user e }

  reset-IsOther : (token : String) → IsOther redis (pwd_reset_key token)
  reset-IsOther t = record { no_token = reset-refresh t; no_set = reset-user t }

module _ (env : Env) where
  abbrev pub Good : World env → Type 0
  Good w = IsIndexed env.redis w.redis

  set-Good :
      (k v : String) (ex : ℕ) → 0 < ex → IsOther env.redis k → Keeps Good (redis_set env k v ex)
  set-Good k v ex p o = record { at = λ w h. set_other env.redis k v ex w.redis p o h }

  delete-Good : (ks : List String) → AllOther env.redis ks → Keeps Good (redis_delete env ks)
  delete-Good ks o = record { at = λ w h. delete_other env.redis ks w.redis o h }

  users-Good :
      {A : Type 0} (f : env.users.State → Result A × env.users.State)
      → Keeps Good (λ w. ((f w.users).0, record w { users = (f w.users).1 }))
  users-Good f = record { at = λ w h. h }

  incr-Good : (k : String) → IsOther env.redis k → Keeps Good (redis_incr env k)
  incr-Good k o = record { at = λ w h. incr_other env.redis k w.redis o h }

  expire-Good :
      (k : String) (n : ℕ) → 0 < n → IsOther env.redis k → Keeps Good (redis_expire env k n)
  expire-Good k n p o = record { at = λ w h. expire_other env.redis k n w.redis p o h }

  verify_key-Good : (token : String) → AllOther env.redis (email_verify_key token ∷ [])
  verify_key-Good token = (verify-IsOther env.redis token, tt)

  attempts_key-Good : (e : String) → AllOther env.redis (login_attempts_key e ∷ [])
  attempts_key-Good e = (attempts-IsOther env.redis e, tt)

  login_keys-Good : (e : String) → AllOther env.redis (login_attempts_key e ∷ login_lock_key e ∷ [])
  login_keys-Good e = (attempts-IsOther env.redis e, (lock-IsOther env.redis e, tt))

  pub reset_key-Good : (token : String) → AllOther env.redis (pwd_reset_key token ∷ [])
  reset_key-Good token = (reset-IsOther env.redis token, tt)

  issue-Good : (draws : Draws) (user : Uuid) → Keeps Good (issue_token_pair env draws user)
  issue-Good draws user = record {
    at =
        λ w h. rw issue_token_pair_lem (store_token env.redis _ _ _ w.redis env.positive.refresh h);
  }

  revoke-Good : (user : Uuid) → Keeps Good (revoke_all_refresh_tokens env user)
  revoke-Good user = record {
    at = λ w h. rw revoke_all_lem (revoked-IsIndexed env.redis _ w.redis h);
  }

  ruleset good_rules = (
    Keeps-pure, Keeps-raise, Keeps-lift, Keeps-or_raise, Keeps-read, Keeps-if, Keeps-bind,
    users-Good, set-Good, delete-Good, incr-Good, expire-Good, verify-IsOther, lock-IsOther,
    attempts-IsOther, reset-IsOther, verify_key-Good, attempts_key-Good, login_keys-Good,
    reset_key-Good, issue-Good, revoke-Good,
  )

  pub register-Good :
      (draws : Draws) (email password name : String)
      → Keeps Good (register env draws email password name)
  unfolding register
  register-Good draws email password name = search (good_rules, env.positive.verification) depth 12

  pub verify_email-Good : (token : String) → Keeps Good (verify_email env token)
  unfolding verify_email
  verify_email-Good token = search good_rules depth 12

  attempt-Good : (e : String) → Keeps Good (register_failed_attempt env e)
  unfolding register_failed_attempt
  attempt-Good e = search (good_rules, env.positive.lockout) depth 12

  fail_login-Good : (e : String) → Keeps Good (fail_login env e)
  unfolding fail_login
  fail_login-Good e = search (good_rules, attempt-Good) depth 12

  admit-Good :
      (draws : Draws) (e : String) (valid : Bool) (row : Option User)
      → Keeps Good (admit env draws e valid row)
  unfolding admit
  admit-Good draws e valid none = fail_login-Good e
  admit-Good draws e valid (some user) = search (good_rules, fail_login-Good) depth 12

  reject_locked-Good : (t : ℤ) → Keeps Good (reject_locked env t)
  unfolding reject_locked
  reject_locked-Good (pos n) = search good_rules
  reject_locked-Good (negsuc n) = search good_rules

  pub login-Good :
      (draws : Draws) (email password : String) → Keeps Good (login env draws email password)
  unfolding login
  login-Good draws email password = search (good_rules, reject_locked-Good, admit-Good) depth 12

  issue_reset-Good : (draws : Draws) (row : Option User) → Keeps Good (issue_reset env draws row)
  unfolding issue_reset
  issue_reset-Good draws none = search good_rules
  issue_reset-Good draws (some user) = search (good_rules, env.positive.reset) depth 12

  pub request_password_reset-Good :
      (draws : Draws) (email : String) → Keeps Good (request_password_reset env draws email)
  unfolding request_password_reset
  request_password_reset-Good draws email = search (good_rules, issue_reset-Good) depth 12

  pub reset_password-Good :
      (draws : Draws) (token password : String)
      → Keeps Good (reset_password env draws token password)
  unfolding reset_password
  reset_password-Good draws token password = search good_rules depth 14

  -- A text that is no UUID ends the call between the two removals.
  drop_token-Good : (jti user_id : String) → Keeps Good (drop_token env jti user_id)
  unfolding drop_token
  drop_token-Good jti user_id = record {
    at = λ w h. elim (Option-cases (env.libs.uuid_parse user_id)) [
      | inl bad ↦ rw bad (delete_token-IsIndexed env.redis jti w.redis h)
      | inr (id, e) ↦ rw e (drop_token-IsIndexed env.redis jti (env.libs.uuid_str id) w.redis h)
    ];
  }

  decode-Good : (token : String) → Keeps Good (decode_refresh_token env token)
  unfolding decode_refresh_token
  decode-Good token = record { at = λ w h. h }

  pub refresh-Good :
      (draws : Draws) (token : String) → Keeps Good (refresh_access_token env draws token)
  unfolding refresh_access_token
  refresh-Good draws token = search (good_rules, decode-Good, drop_token-Good) depth 14

  logout_payload-Good : (r : Result (Dict Claim)) → Keeps Good (logout_payload env r)
  unfolding logout_payload
  logout_payload-Good (err e) = search good_rules
  logout_payload-Good (ok payload) = search (good_rules, drop_token-Good) depth 14

  pub logout-Good : (token : String) → Keeps Good (logout env token)
  unfolding logout
  logout-Good token = record {
    at = λ w h.
        let (r, w') = decode_refresh_token env token w in
        (logout_payload-Good r).at w' ((decode-Good token).at w h);
  }
