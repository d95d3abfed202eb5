-- ===== src/Auth/Attempts.antt =====
-- What a failed login attempt, `_register_failed_attempt` of app/auth/service.py, writes to Redis.
use task_mgt_app.Base.{
  ◌+◌, ◌*◌, ◌≤◌, ◌<◌, String, ◌≡◌, ◌∙◌, sym, true, false, inl, inr, [], ◌∷◌, arith, leb, str_eq,
  Bool-cases, if◌then◌else◌, pos,
}
use task_mgt_app.Auth.Keys.{login_lock_key, login_attempts_key, key_laws}
use task_mgt_app.Auth.Service.{register_failed_attempt}
use task_mgt_app.Auth.World.{Env, World}
use task_mgt_app.Redis.{created_ne}
use task_mgt_app.Errors.{ok}

module _ (env : Env) (e : String) (w : World env) where
  -- The state of Redis behind the INCR and the EXPIRE.
  abbrev counted : env.redis.State
  counted =
      env.redis.expire (login_attempts_key e) (env.settings.login_lockout_minutes * 60)
        (env.redis.incr (login_attempts_key e) w.redis).1

  -- The state of Redis behind a call.
  abbrev pub attempted : env.redis.State
  attempted =
      if leb env.settings.login_max_attempts (env.redis.count (login_attempts_key e) w.redis + 1)
      then env.redis.delete (login_attempts_key e ∷ [])
          (env.redis.set (login_lock_key e) "1" (env.settings.login_lockout_minutes * 60) counted)
      else counted

  pub register_failed_attempt_lem :
      register_failed_attempt env e w ≡ (ok tt, record w { redis = attempted })
  unfolding register_failed_attempt
  register_failed_attempt_lem = simp (env.redis.incr_count) (ground arith)

  attempted_under :
      leb env.settings.login_max_attempts (env.redis.count (login_attempts_key e) w.redis + 1)
        ≡ false
      → attempted ≡ counted
  attempted_under h = rw h

  attempted_reached :
      leb env.settings.login_max_attempts (env.redis.count (login_attempts_key e) w.redis + 1)
        ≡ true
      → attempted
        ≡ env.redis.delete
            (login_attempts_key e ∷ [])
            (env.redis.set (login_lock_key e) "1" (env.settings.login_lockout_minutes * 60) counted)
  attempted_reached h = rw h

  -- Below the limit an attempt is counted, and no lock changes.
  pub attempt_under :
      env.redis.count (login_attempts_key e) w.redis + 1 < env.settings.login_max_attempts
      → (env.redis.count (login_attempts_key e) attempted
          ≡ env.redis.count (login_attempts_key e) w.redis + 1)
        × ((j : String)
            → env.redis.ttl (login_lock_key j) attempted ≡ env.redis.ttl (login_lock_key j) w.redis)
        × (env.redis.ttl (login_attempts_key e) attempted
            ≡ pos (env.settings.login_lockout_minutes * 60))
  attempt_under h = rw (attempted_under (ground arith)) (
    simp (env.redis.count-expire, env.positive.lockout, env.redis.count-incr, key_laws),
    λ j. simp (env.redis.ttl-expire, env.redis.ttl-incr, key_laws),
    env.redis.ttl-expire_self _ _ _ env.positive.lockout
        (λ e. created_ne _ (sym (env.redis.ttl-incr_self _ _) ∙ e)),
  )

  -- The attempt that reaches the limit sets the lock for the whole lockout, and starts the count
  -- again.
  pub attempt_reached :
      env.settings.login_max_attempts ≤ env.redis.count (login_attempts_key e) w.redis + 1
      → (env.redis.count (login_attempts_key e) attempted ≡ 0)
        × (env.redis.ttl (login_lock_key e) attempted
            ≡ pos (env.settings.login_lockout_minutes * 60))
  attempt_reached h = rw (attempted_reached (ground arith)) (
    simp (env.redis.count-delete, key_laws),
    simp (env.redis.ttl-delete, env.redis.ttl-set, env.positive.lockout, key_laws),
  )

  -- A failed attempt for one address changes neither the count of failed attempts nor the lock of
  -- any other address.
  attempt_others :
      (j : String)
      → str_eq e j ≡ false
      → (env.redis.count (login_attempts_key j) attempted
          ≡ env.redis.count (login_attempts_key j) w.redis)
        × (env.redis.ttl (login_lock_key j) attempted ≡ env.redis.ttl (login_lock_key j) w.redis)
  attempt_others j h =
      elim (Bool-cases (
        leb env.settings.login_max_attempts (env.redis.count (login_attempts_key e) w.redis + 1))) [
          | inl reached ↦ rw (attempted_reached reached) (
            simp (
              env.redis.count-delete, env.redis.count-set, env.redis.count-expire,
              env.positive.lockout, env.redis.count-incr, key_laws, h,
            ),
            simp (
              env.redis.ttl-delete, env.redis.ttl-set, env.redis.ttl-expire, env.positive.lockout,
              env.redis.ttl-incr, key_laws, h,
            ),
          )
          | inr under ↦ rw (attempted_under under) (
            simp (env.redis.count-expire, env.positive.lockout, env.redis.count-incr, key_laws, h),
            simp (env.redis.ttl-expire, env.redis.ttl-incr, key_laws, h),
          )
        ]
