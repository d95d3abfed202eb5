-- ===== src/Auth/Concurrent/Logins.antt =====
-- Logins at the same time: the check of the lock in `login` of app/auth/service.py, and what follows
-- it, where other logins have gone on in between.
use task_mgt_app.Base.{
  ℕ, ◌+◌, ◌*◌, ◌<◌, String, ◌≡◌, refl, sym, ap, ◌∙◌, Bool, true, Option, some, List, [], ◌∷◌,
  length, map, arith, ℤ,
}
use task_mgt_app.Auth.Attempts.{attempted, attempt_under}
use task_mgt_app.Auth.Calls.{issue_token_pair_lem}
use task_mgt_app.Auth.Keys.{login_lock_key, login_attempts_key}
use task_mgt_app.Auth.Lockout.{run_logins, run_none, run_step, run_reached, AllRejected}
use task_mgt_app.Auth.Login.{
  IsOpen, IsRejected, reject_locked_open, login_locked, admit_refused, fail_login_lem,
}
use task_mgt_app.Auth.Model.{User}
use task_mgt_app.Auth.Service.{
  bad_credentials, login, reject_locked, credentials_valid, admit, issue_token_pair,
}
use task_mgt_app.Auth.World.{Env, World, Draws, Action, ◌>>=◌, lift, redis_ttl, users_get_by_email}
use task_mgt_app.Errors.{Result, ok, err, app, account_locked}
use task_mgt_app.Security.{verify_password}

module _ (env : Env) where
  -- The first command, and the check of its answer.
  unfoldable pub check_lock : String → Action env (Unit {0})
  check_lock email = do
    lock_ttl ← redis_ttl env (login_lock_key (env.libs.lower email))
    reject_locked env lock_ttl

  -- The rest.
  unfoldable pub attempt : Draws → String → String → Action env (String × String)
  attempt draws email password = do
    user ← users_get_by_email env (env.libs.lower email)
    valid ← lift (credentials_valid env password user)
    admit env draws (env.libs.lower email) valid user

  login_split :
      (draws : Draws) (email password : String) (w : World env)
      → login env draws email password w
        ≡ (check_lock email >>= (λ _. attempt draws email password)) w
  unfolding login check_lock attempt
  login_split draws email password w = ground arith

  -- Calls that have passed the check, for one address, each with its password.
  unfoldable pub run_attempts :
      String → List (Draws × String) → World env → List (Result (String × String)) × World env
  unfolding attempt
  run_attempts email [] w = ([], w)
  run_attempts email ((draws, password) ∷ l) w =
      let (r, w') = attempt draws email password w in
      let (rs, w'') = run_attempts email l w' in (r ∷ rs, w'')

  module _ (email : String) where
    abbrev lock : World env → ℤ
    lock w = env.redis.ttl (login_lock_key (env.libs.lower email)) w.redis

    abbrev tries : World env → ℕ
    tries w = env.redis.count (login_attempts_key (env.libs.lower email)) w.redis

    abbrev next_world : World env → World env
    next_world w = record w { redis = attempted env (env.libs.lower email) w }

    check_open : (w : World env) → IsOpen (lock w) → check_lock email w ≡ (ok tt, w)
    unfolding check_lock
    check_open w o = reject_locked_open env (lock w) w o

    attempt_lem :
        (draws : Draws) (password : String) (w : World env) {row : Option User} {valid : Bool}
        → env.users.get_by_email (env.libs.lower email) w.users ≡ ok row
        → credentials_valid env password row ≡ ok valid
        → attempt draws email password w ≡ admit env draws (env.libs.lower email) valid row w
    unfolding attempt
    attempt_lem draws password w found checked = ground arith

    attempts_step :
        (draws : Draws) (password : String) (l : List (Draws × String)) (w : World env)
        → IsRejected env email password w.users
        → run_attempts email ((draws, password) ∷ l) w ≡ (
          err bad_credentials ∷ (run_attempts email l (next_world w)).0,
          (run_attempts email l (next_world w)).1,
        )
    unfolding run_attempts
    attempts_step draws password l w r =
        rw
          (attempt_lem draws password w r.found r.checked
            ∙ admit_refused env draws (env.libs.lower email) r.valid r.row w r.refused
            ∙ fail_login_lem env (env.libs.lower email) w)
          refl

    -- Up to the limit nothing tells the two apart.
    same_run :
        (l : List (Draws × String)) (w : World env)
        → IsOpen (lock w)
        → AllRejected env email l w.users
        → tries w + length l ≡ env.settings.login_max_attempts
        → run_attempts email l w ≡ run_logins env email l w
    same_run [] w o r k = unfold run_attempts in sym (run_none env email w)
    same_run ((draws, password) ∷ []) w o (r, rs) k =
        attempts_step draws password [] w r
        ∙ rw (run_step env email draws password [] w o r, run_none env email (next_world w))
            (unfold run_attempts in refl)
    same_run ((draws, password) ∷ x ∷ l) w o (r, rs) k =
        let (counted, same, fresh) = attempt_under env (env.libs.lower email) w (omega arith) in
        let rest =
          same_run (x ∷ l) (next_world w) (rw (same (env.libs.lower email)) o) rs (omega arith) in
        attempts_step draws password (x ∷ l) w r
        ∙ rw (run_step env email draws password (x ∷ l) w o r, rest) refl

    attempt_passes :
        (draws : Draws) (password : String) (user : User) (w : World env)
        → env.users.get_by_email (env.libs.lower email) w.users ≡ ok (some user)
        → verify_password env.libs env.settings password user.password_hash ≡ ok true
        → user.is_active ≡ true
        → user.is_email_verified ≡ true
        → attempt draws email password w
          ≡ issue_token_pair env draws user.id (record w {
            redis =
                env.redis.delete
                  (login_attempts_key (env.libs.lower email)
                    ∷ login_lock_key (env.libs.lower email)
                    ∷ [])
                  w.redis;
          })
    unfolding credentials_valid admit
    attempt_passes draws password user w found valid active verified =
        attempt_lem draws password w found valid ∙ rw (active, verified) refl

    -- A login is the check of the lock and what follows it. For an unlocked address, let logins
    -- that are each refused for their credentials bring the count of failed attempts to
    -- LOGIN_MAX_ATTEMPTS, and let all of them, and a login with the right password of an active and
    -- verified user, have passed the check of the lock before. Each of the former is refused as
    -- "Invalid email or password."; behind them a new login is refused as locked for the whole
    -- lockout time, but the one that is under way returns tokens.
    pub overtaken :
        (l : List (Draws × String)) (draws : Draws) (password : String) (user : User)
        (w : World env)
        → IsOpen (lock w)
        → AllRejected env email l w.users
        → tries w < env.settings.login_max_attempts
        → tries w + length l ≡ env.settings.login_max_attempts
        → env.users.get_by_email (env.libs.lower email) w.users ≡ ok (some user)
        → verify_password env.libs env.settings password user.password_hash ≡ ok true
        → user.is_active ≡ true
        → user.is_email_verified ≡ true
        → let after = run_attempts email l w in
          (login env draws email password w
            ≡ (check_lock email >>= (λ _. attempt draws email password)) w)
          × (check_lock email w ≡ (ok tt, w))
          × (after.0 ≡ map (λ _. err bad_credentials) l)
          × ((login env draws email password after.1).0
              ≡ err (
                  app (
                    account_locked "Too many failed login attempts. Try again later."
                      (env.settings.login_lockout_minutes * 60))))
          × ((tokens : String × String) × ((attempt draws email password after.1).0 ≡ ok tokens))
    overtaken l draws password user w o r h k found valid active verified =
        let (none_left, locked, users, refused) = run_reached env email l w o r h k in
        let passed =
          attempt_passes draws password user (run_logins env email l w).1 (rw users found) valid
            active verified in
        rw (same_run l w o r k, passed, issue_token_pair_lem)
          (
            login_split draws email password w,
            check_open w o,
            refused,
            ap (λ p. p.0)
                (login_locked env draws email password (run_logins env email l w).1 locked
                  env.positive.lockout),
            (_, refl),
          )
