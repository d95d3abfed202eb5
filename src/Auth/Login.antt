-- ===== src/Auth/Login.antt =====
-- The branches of `login`, each with the world that it leaves.
pub mod Outcomes
use task_mgt_app.Base.{
  ℕ, ◌<◌, String, ◌≡◌, refl, ◌∙◌, Bool, true, false, ◌&&◌, Option, none, some, [], ◌∷◌, arith, ℤ,
  pos, negsuc,
}
use task_mgt_app.Auth.Attempts.{attempted, register_failed_attempt_lem}
use task_mgt_app.Auth.Keys.{login_lock_key, login_attempts_key}
use task_mgt_app.Auth.Model.{User}
use task_mgt_app.Auth.Service.{
  bad_credentials, login, credentials_valid, admit, fail_login, reject_locked, issue_token_pair,
}
use task_mgt_app.Auth.World.{Env, World, Draws}
use task_mgt_app.Errors.{ok, err, app, account_locked}
use task_mgt_app.Security.{verify_password}

-- Whether a TTL of the lock key lets a login pass.
abbrev pub IsOpen : ℤ → Type 0
IsOpen (pos n) = n ≡ 0
IsOpen (negsuc _) = Unit

module _ (env : Env) where
  -- What the password check says of the row that was found for the address.
  abbrev pub accepts : Option User → Bool → Bool
  accepts none valid = false
  accepts (some user) valid = valid && user.is_active

  -- A row that does not pass: no account, a wrong password, or a disabled account.
  pub record IsRejected (email password : String) (s : env.users.State) : Type 0 where
    pub row : Option User
    pub valid : Bool
    pub found : env.users.get_by_email (env.libs.lower email) s ≡ ok row
    pub checked : credentials_valid env password row ≡ ok valid
    pub refused : accepts row valid ≡ false

  pub fail_login_lem :
      (e : String) (w : World env)
      → fail_login env e w ≡ (err bad_credentials, record w { redis = attempted env e w })
  unfolding fail_login
  fail_login_lem e w = ground (arith, register_failed_attempt_lem env e w)

  pub admit_refused :
      (draws : Draws) (e : String) (valid : Bool) (row : Option User) (w : World env)
      → accepts row valid ≡ false
      → admit env draws e valid row w ≡ fail_login env e w
  unfolding admit
  admit_refused draws e valid none w h = refl
  admit_refused draws e true (some user) w h = rw h
  admit_refused draws e false (some user) w h = refl

  pub login_locked :
      (draws : Draws) (email password : String) (w : World env) {n : ℕ}
      → env.redis.ttl (login_lock_key (env.libs.lower email)) w.redis ≡ pos n
      → 0 < n
      → login env draws email password w
        ≡ (err (app (account_locked "Too many failed login attempts. Try again later." n)), w)
  unfolding login reject_locked
  login_locked draws email password w h p = rw h (ground arith)

  pub reject_locked_open : (t : ℤ) (w : World env) → IsOpen t → reject_locked env t w ≡ (ok tt, w)
  unfolding reject_locked
  reject_locked_open (pos n) w h = rw h
  reject_locked_open (negsuc n) w h = refl

  -- Behind an open lock, `login` is the password check and what follows it.
  pub login_open :
      (draws : Draws) (email password : String) (w : World env) {row : Option User} {valid : Bool}
      → IsOpen (env.redis.ttl (login_lock_key (env.libs.lower email)) w.redis)
      → env.users.get_by_email (env.libs.lower email) w.users ≡ ok row
      → credentials_valid env password row ≡ ok valid
      → login env draws email password w ≡ admit env draws (env.libs.lower email) valid row w
  unfolding login
  login_open draws email password w h found checked = ground (
    arith,
    reject_locked_open (env.redis.ttl (login_lock_key (env.libs.lower email)) w.redis) w h,
  )

  pub login_refused :
      (draws : Draws) (email password : String) (w : World env)
      → IsOpen (env.redis.ttl (login_lock_key (env.libs.lower email)) w.redis)
      → IsRejected email password w.users
      → login env draws email password w
        ≡ (err bad_credentials, record w { redis = attempted env (env.libs.lower email) w })
  login_refused draws email password w h r =
      login_open draws email password w h r.found r.checked
      ∙ admit_refused draws (env.libs.lower email) r.valid r.row w r.refused
      ∙ fail_login_lem (env.libs.lower email) w

  -- A live, verified user with the right password: the counter and the lock are cleared, and a pair
  -- of tokens is issued.
  pub login_passes :
      (draws : Draws) (email password : String) (user : User) (w : World env)
      → IsOpen (env.redis.ttl (login_lock_key (env.libs.lower email)) w.redis)
      → env.users.get_by_email (env.libs.lower email) w.users ≡ ok (some user)
      → verify_password env.libs env.settings password user.password_hash ≡ ok true
      → user.is_active ≡ true
      → user.is_email_verified ≡ true
      → login env draws email password w
        ≡ issue_token_pair env draws user.id (record w {
          redis =
              env.redis.delete
                (login_attempts_key (env.libs.lower email)
                  ∷ login_lock_key (env.libs.lower email)
                  ∷ [])
                w.redis;
        })
  unfolding credentials_valid admit
  login_passes draws email password user w o found checked active verified =
      login_open draws email password w o found checked ∙ rw (active, verified)
