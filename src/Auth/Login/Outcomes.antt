-- ===== src/Auth/Login/Outcomes.antt =====
-- What the answer of `login` tells: of a refusal, and of tokens.
use task_mgt_app.Base.{
  String, ◌≡◌, refl, sym, ap, ◌∙◌, subst, Bool, true, Option, none, some, arith, ℤ, pos, negsuc,
  inl, inr,
}
use task_mgt_app.Auth.Attempts.{register_failed_attempt_lem}
use task_mgt_app.Auth.Keys.{login_lock_key}
use task_mgt_app.Auth.Login.{IsOpen, IsRejected, login_refused, login_open, reject_locked_open}
use task_mgt_app.Auth.Model.{User}
use task_mgt_app.Auth.Service.{
  bad_credentials, login, credentials_valid, admit, fail_login, reject_locked,
}
use task_mgt_app.Auth.World.{Env, World, Draws}
use task_mgt_app.Errors.{Result-cases, ok, err}
use task_mgt_app.Security.{verify_password}

module _ (env : Env) where
  -- On an unlocked address, and with the same state of Redis, two logins that are refused because
  -- there is no account, the password is wrong or the account is disabled give the same answer and
  -- leave Redis in the same state, whichever of the three reasons each has.
  pub refusals_alike :
      (d d' : Draws) (email password password' : String) (w : World env) (users : env.users.State)
      → IsOpen (env.redis.ttl (login_lock_key (env.libs.lower email)) w.redis)
      → IsRejected env email password w.users
      → IsRejected env email password' users
      → let other = login env d' email password' (record w { users = users }) in
        ((login env d email password w).0 ≡ other.0)
        × ((login env d email password w).1.redis ≡ other.1.redis)
  refusals_alike d d' email password password' w users o r r' =
      rw
        (
          login_refused env d email password w o r,
          login_refused env d' email password' (record w { users = users }) o r',
        )
        (refl, refl)

  -- What a login that returned tokens has passed.
  pub record HasPassed (email password : String) (w : World env) : Type 0 where
    pub user : User
    pub unlocked : IsOpen (env.redis.ttl (login_lock_key (env.libs.lower email)) w.redis)
    pub found : env.users.get_by_email (env.libs.lower email) w.users ≡ ok (some user)
    pub checked : verify_password env.libs env.settings password user.password_hash ≡ ok true
    pub active : user.is_active ≡ true
    pub verified : user.is_email_verified ≡ true

  reject_locked_inv : (t : ℤ) (w : World env) → (reject_locked env t w).0 ≡ ok tt → IsOpen t
  unfolding reject_locked
  reject_locked_inv (pos n) w h = ground arith
  reject_locked_inv (negsuc n) w h = tt

  fail_login_err : (e : String) (w : World env) → (fail_login env e w).0 ≡ err bad_credentials
  unfolding fail_login
  fail_login_err e w = ground (arith, register_failed_attempt_lem env e w)

  admit_inv :
      (d : Draws) (e : String) (valid : Bool) (row : Option User) (w : World env)
      {tokens : String × String}
      → (admit env d e valid row w).0 ≡ ok tokens
      → (user : User) × (row ≡ some user)
        × (valid ≡ true)
        × (user.is_active ≡ true)
        × (user.is_email_verified ≡ true)
  unfolding admit
  admit_inv d e valid none w h = cc (fail_login_err e w)
  admit_inv d e valid (some user) w h = (
    user,
    refl,
    ground (arith, fail_login_err e w),
    ground (arith, fail_login_err e w),
    ground (arith, fail_login_err e w),
  )

  IsOpen-inv :
      (d : Draws) (email password : String) (w : World env) {tokens : String × String}
      → (login env d email password w).0 ≡ ok tokens
      → IsOpen (env.redis.ttl (login_lock_key (env.libs.lower email)) w.redis)
  unfolding login
  IsOpen-inv d email password w h =
      elim (Result-cases
        (reject_locked env (env.redis.ttl (login_lock_key (env.libs.lower email)) w.redis) w).0) [
          | inl (_, passed) ↦ reject_locked_inv _ w passed
          | inr (e, locked) ↦ absurd (ground arith)
        ]

  row_inv :
      (d : Draws) (email password : String) (w : World env) {tokens : String × String}
      → (login env d email password w).0 ≡ ok tokens
      → IsOpen (env.redis.ttl (login_lock_key (env.libs.lower email)) w.redis)
      → (row : Option User) × (valid : Bool) × (env.users.get_by_email
            (env.libs.lower email)
            w.users
          ≡ ok row)
        × (credentials_valid env password row ≡ ok valid)
  unfolding login
  row_inv d email password w h o =
      elim (Result-cases (env.users.get_by_email (env.libs.lower email) w.users)) [
        | inl (row, found) ↦ elim (Result-cases (credentials_valid env password row)) [
          | inl (valid, checked) ↦ (row, valid, found, checked)
          | inr (e, failed) ↦ absurd (ground (arith, reject_locked_open env _ w o))
        ]
        | inr (e, failed) ↦ absurd (ground (arith, reject_locked_open env _ w o))
      ]

  checked_inv :
      (password : String) (user : User)
      → credentials_valid env password (some user) ≡ ok true
      → verify_password env.libs env.settings password user.password_hash ≡ ok true
  unfolding credentials_valid
  checked_inv password user h = h

  -- A login that returns tokens has passed every check: the address is not locked, its lower case
  -- form finds a user, the password verifies against the user's hash, and the user is active and
  -- has a verified address.
  pub login_sound :
      (d : Draws) (email password : String) (w : World env) {tokens : String × String}
      → (login env d email password w).0 ≡ ok tokens
      → HasPassed email password w
  login_sound d email password w h =
      let o = IsOpen-inv d email password w h in
      let (row, valid, found, checked) = row_inv d email password w h o in
      let passed = login_open env d email password w o found checked in
      let (user, is_user, is_valid, active, verified) =
        admit_inv d (env.libs.lower email) valid row w (sym (ap (λ p. p.0) passed) ∙ h) in
      record {
        user = user;
        unlocked = o;
        found = found ∙ ap ok is_user;
        checked = checked_inv password user (
            subst (λ b. credentials_valid env password (some user) ≡ ok b) is_valid
              (subst (λ r. credentials_valid env password r ≡ ok valid) is_user checked));
        active = active;
        verified = verified;
      }
