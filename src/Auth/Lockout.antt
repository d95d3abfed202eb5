-- ===== src/Auth/Lockout.antt =====
-- The brute-force protection of `login`: runs of refused logins, the lock, and its end.
use task_mgt_app.Base.{
  ℕ, ◌+◌, ◌-◌, ◌*◌, ◌≤◌, ◌<◌, String, ◌≡◌, refl, ap, ◌∙◌, List, [], ◌∷◌, map, arith, length, subst,
  sym, ℤ, pos, negsuc, true, some,
}
use task_mgt_app.Auth.Attempts.{attempted, attempt_under, attempt_reached}
use task_mgt_app.Auth.Keys.{login_lock_key, login_attempts_key}
use task_mgt_app.Auth.Login.{IsOpen, IsRejected, login_refused, login_locked, login_passes}
use task_mgt_app.Auth.Model.{User}
use task_mgt_app.Auth.Calls.{issue_token_pair_lem}
use task_mgt_app.Auth.Service.{bad_credentials, login}
use task_mgt_app.Auth.World.{Env, World, Draws, wait}
use task_mgt_app.Errors.{Result, ok, err, app, account_locked}
use task_mgt_app.Redis.{age}
use task_mgt_app.Security.{verify_password}

module _ (env : Env) where
  -- The logins of one client for one address, each with the password that it tries.
  pub run_logins :
      String → List (Draws × String) → World env → List (Result (String × String)) × World env
  run_logins email [] w = ([], w)
  run_logins email ((draws, password) ∷ l) w =
      let (r, w') = login env draws email password w in
      let (rs, w'') = run_logins email l w' in (r ∷ rs, w'')

  abbrev pub AllRejected : String → List (Draws × String) → env.users.State → Type 0
  AllRejected email [] s = Unit
  AllRejected email ((draws, password) ∷ l) s =
      IsRejected env email password s × AllRejected email l s

  module _ (email : String) where
    pub run_none : (w : World env) → run_logins email [] w ≡ ([], w)
    unfolding run_logins
    run_none w = refl

    abbrev lock : World env → ℤ
    lock w = env.redis.ttl (login_lock_key (env.libs.lower email)) w.redis

    abbrev tries : World env → ℕ
    tries w = env.redis.count (login_attempts_key (env.libs.lower email)) w.redis

    abbrev next_world : World env → World env
    next_world w = record w { redis = attempted env (env.libs.lower email) w }

    pub run_step :
        (draws : Draws) (password : String) (l : List (Draws × String)) (w : World env)
        → IsOpen (lock w)
        → IsRejected env email password w.users
        → run_logins email ((draws, password) ∷ l) w ≡ (
          err bad_credentials ∷ (run_logins email l (next_world w)).0,
          (run_logins email l (next_world w)).1,
        )
    unfolding run_logins
    run_step draws password l w o r = rw (login_refused env draws email password w o r)

    -- On an unlocked address, a run of logins that are each refused for their credentials, and that
    -- with the count so far stay below LOGIN_MAX_ATTEMPTS, adds its length to the count of failed
    -- attempts, changes neither the lock nor the users, and answers "Invalid email or password."
    -- every time.
    run_under :
        (l : List (Draws × String)) (w : World env)
        → IsOpen (lock w)
        → AllRejected email l w.users
        → tries w + length l < env.settings.login_max_attempts
        → (tries (run_logins email l w).1 ≡ tries w + length l)
          × (lock (run_logins email l w).1 ≡ lock w)
          × ((run_logins email l w).1.users ≡ w.users)
          × ((run_logins email l w).0 ≡ map (λ _. err bad_credentials) l)
    run_under [] w o r h = unfold run_logins in (omega arith, refl, refl, refl)
    run_under ((draws, password) ∷ l) w o (r, rs) h =
        let (counted, same, fresh) = attempt_under env (env.libs.lower email) w (omega arith) in
        let (a, b, c, d) =
          run_under l (next_world w) (rw (same (env.libs.lower email)) o) rs (omega arith) in
        rw (run_step draws password l w o r)
          (omega arith, b ∙ same (env.libs.lower email), c, ap (λ t. err bad_credentials ∷ t) d)

    -- The run that reaches the limit: every login in it is refused alike, and it ends with the lock
    -- set for the whole lockout and the count at zero.
    pub run_reached :
        (l : List (Draws × String)) (w : World env)
        → IsOpen (lock w)
        → AllRejected email l w.users
        → tries w < env.settings.login_max_attempts
        → tries w + length l ≡ env.settings.login_max_attempts
        → (tries (run_logins email l w).1 ≡ 0)
          × (lock (run_logins email l w).1 ≡ pos (env.settings.login_lockout_minutes * 60))
          × ((run_logins email l w).1.users ≡ w.users)
          × ((run_logins email l w).0 ≡ map (λ _. err bad_credentials) l)
    run_reached [] w o r h k = absurd (omega arith)
    run_reached ((draws, password) ∷ []) w o (r, rs) h k =
        let (started_again, set_lock) =
          attempt_reached env (env.libs.lower email) w (omega arith) in
        rw (run_step draws password [] w o r)
          (unfold run_logins in (started_again, set_lock, refl, refl))
    run_reached ((draws, password) ∷ x ∷ l) w o (r, rs) h k =
        let (counted, same, fresh) = attempt_under env (env.libs.lower email) w (omega arith) in
        let (a, b, c, d) =
          run_reached (x ∷ l) (next_world w) (rw (same (env.libs.lower email)) o) rs (omega arith)
            (omega arith) in
        rw (run_step draws password (x ∷ l) w o r) (a, b, c, ap (λ t. err bad_credentials ∷ t) d)

    -- While the lock lasts, whatever the password, the answer is the time that is left.
    pub locked_until :
        (w : World env) (t : ℕ) (draws : Draws) (password : String)
        → lock w ≡ pos (env.settings.login_lockout_minutes * 60)
        → t < env.settings.login_lockout_minutes * 60
        → login env draws email password (wait t w) ≡ (
          err (
              app (
                account_locked "Too many failed login attempts. Try again later."
                  (env.settings.login_lockout_minutes * 60 - t))),
          wait t w,
        )
    unfolding wait
    locked_until w t draws password h k =
        login_locked env draws email password (wait t w)
          (env.redis.ttl-elapse _ _ _ ∙ rw h (ground arith)) (omega arith)

    -- After the lockout the lock is open.
    pub IsOpen-after :
        (w : World env) (t : ℕ)
        → lock w ≡ pos (env.settings.login_lockout_minutes * 60)
        → env.settings.login_lockout_minutes * 60 ≤ t
        → IsOpen (lock (wait t w))
    unfolding wait
    IsOpen-after w t h k = subst IsOpen (sym (env.redis.ttl-elapse _ _ _ ∙ expired)) tt
      where
        expired : age t (lock w) ≡ negsuc 1
        expired = rw h (ground arith)

    -- A count that no attempt renews is forgotten after the lockout time.
    pub count_forgotten :
        (w : World env) (t : ℕ)
        → tries w + 1 < env.settings.login_max_attempts
        → env.settings.login_lockout_minutes * 60 ≤ t
        → tries (wait t (next_world w)) ≡ 0
    unfolding wait
    count_forgotten w t h k =
        let (counted, same, fresh) = attempt_under env (env.libs.lower email) w h in
        env.redis.count-elapse _ _ _ ∙ rw fresh (ground arith)

    -- Let an address be unlocked, with no failed attempt counted, and let as many logins for it as
    -- LOGIN_MAX_ATTEMPTS run in a row, each with no account, a wrong password or a disabled
    -- account. Every one of them answers "Invalid email or password.". For the whole lockout time
    -- after the last of them every login for the address, whatever its password, answers
    -- AccountLockedError with the seconds of the lockout that are left.
    pub locks_at_limit :
        (l : List (Draws × String)) (w : World env) (t : ℕ) (draws : Draws) (password : String)
        → IsOpen (lock w)
        → AllRejected email l w.users
        → tries w ≡ 0
        → length l ≡ env.settings.login_max_attempts
        → t < env.settings.login_lockout_minutes * 60
        → ((run_logins email l w).0 ≡ map (λ _. err bad_credentials) l)
          × ((login env draws email password (wait t (run_logins email l w).1)).0
              ≡ err (
                  app (
                    account_locked "Too many failed login attempts. Try again later."
                      (env.settings.login_lockout_minutes * 60 - t))))
    locks_at_limit l w t draws password o r zero_tries k h =
        let positive = env.positive.attempts in
        let (a, b, c, d) = run_reached l w o r (omega arith) (omega arith) in
        (d, ap (λ p. p.0) (locked_until (run_logins email l w).1 t draws password b h))

    -- Let the lock of an address have its whole time left. Once the lockout time is over, a login
    -- with the right password of an active and verified user returns tokens.
    pub unlocked_after :
        (d : Draws) (password : String) (user : User) (w : World env) (t : ℕ)
        → lock w ≡ pos (env.settings.login_lockout_minutes * 60)
        → env.settings.login_lockout_minutes * 60 ≤ t
        → env.users.get_by_email (env.libs.lower email) w.users ≡ ok (some user)
        → verify_password env.libs env.settings password user.password_hash ≡ ok true
        → user.is_active ≡ true
        → user.is_email_verified ≡ true
        → (tokens : String × String) × ((login env d email password (wait t w)).0 ≡ ok tokens)
    unfolding wait
    unlocked_after d password user w t h k found checked active verified = (
      _,
      ap (λ p. p.0)
          (login_passes env d email password user (wait t w) (IsOpen-after w t h k) found checked
              active verified
            ∙ issue_token_pair_lem env d user.id _),
    )
