-- ===== src/Auth/Registration/Verification.antt =====
-- `verify_email` after `register`: the lifetime of the token, its second use, and a login behind it.
use task_mgt_app.Base.{
  ℕ, ◌+◌, ◌*◌, ◌<◌, String, ◌≡◌, refl, ap, ◌∙◌, true, false, none, some, [], ◌∷◌, arith, ltb,
  str_eq_refl, ==_refl, Bool-cases, inl, inr, if◌then◌else◌, ℤ, pos, negsuc,
}
use task_mgt_app.Auth.Keys.{email_verify_key, login_lock_key, key_laws}
use task_mgt_app.Auth.Login.{IsOpen, login_passes}
use task_mgt_app.Auth.Model.{User, new_user}
use task_mgt_app.Auth.Calls.{issue_token_pair_lem}
use task_mgt_app.Auth.Registration.{
  IsNew, registered, lifetime, added, add_ok, register_lem, found_by_id, found_by_email,
}
use task_mgt_app.Auth.Reset.{verify-hash}
use task_mgt_app.Auth.Service.{bad_verification, register, verify_email, login}
use task_mgt_app.Auth.World.{Env, World, Draws, wait}
use task_mgt_app.Errors.{ok, err}
use task_mgt_app.Redis.{age}

module _ (env : Env) where
  IsOpen-age : (n : ℕ) (t : ℤ) → IsOpen t → IsOpen (age n t)
  IsOpen-age n (pos m) h = let e : ltb n 0 ≡ false = ground arith in rw (h, e) tt
  IsOpen-age n (negsuc m) h = h

  abbrev verified : User → User
  verified user = record user { is_email_verified = true }

  verify_unknown :
      (token : String) (w : World env)
      → env.redis.get (email_verify_key token) w.redis ≡ none
      → verify_email env token w ≡ (err bad_verification, w)
  unfolding verify_email
  verify_unknown token w h = ground arith

  pub verify_email_lem :
      (token : String) (user : User) (w : World env)
      → env.redis.get (email_verify_key token) w.redis ≡ some (env.libs.uuid_str user.id)
      → env.users.get_by_id user.id w.users ≡ ok (some user)
      → verify_email env token w ≡ (
        ok tt,
        record w {
          users = env.users.write (verified user) w.users;
          redis = env.redis.delete (email_verify_key token ∷ []) w.redis;
        },
      )
  unfolding verify_email
  verify_email_lem token user w h k = ground (arith, env.libs.uuid_parse-uuid_str user.id)

  -- A verification token works once.
  pub verify_once :
      (token : String) (user : User) (w : World env)
      → env.redis.get (email_verify_key token) w.redis ≡ some (env.libs.uuid_str user.id)
      → env.users.get_by_id user.id w.users ≡ ok (some user)
      → verify_email env token (verify_email env token w).1
        ≡ (err bad_verification, (verify_email env token w).1)
  verify_once token user w h k =
      verify_unknown token (verify_email env token w).1
        (rw (verify_email_lem token user w h k) (simp (env.redis.get-delete, key_laws)))

  module _ (d : Draws) (email password name : String) (w : World env)
      (new : IsNew env d email password name w) (n : ℕ) where
    -- The world `n` seconds after the registration.
    abbrev later : World env
    later = wait n (register env d email password name w).1

    later_lem : later ≡ record {
      users = added env d email password name w;
      redis = env.redis.elapse n (
          env.redis.set
            (email_verify_key d.token)
            (env.libs.uuid_str d.id)
            (lifetime env d email password name w)
            w.redis);
      now = w.now + n;
    }
    unfolding wait
    later_lem = rw (register_lem env d email password name w new)

    entry-later : env.redis.get (email_verify_key d.token) later.redis ≡ (
        if ltb n (env.settings.email_verification_ttl_hours * 3600)
        then some (env.libs.uuid_str d.id)
        else none)
    entry-later = rw later_lem (
        simp (
          env.redis.get-elapse, env.redis.ttl-set, env.redis.get-set, env.positive.verification,
          str_eq_refl,
        ))

    users-later : later.users ≡ added env d email password name w
    users-later = rw later_lem

    -- In a valid user store, after the registration of a new address with a fresh id,
    -- `verify_email` with its token succeeds as long as less than EMAIL_VERIFICATION_TTL_HOURS have
    -- passed, and from then on answers "Verification link is invalid or has expired.".
    pub register_then_verify : (verify_email env d.token later).0 ≡ (
        if ltb n (env.settings.email_verification_ttl_hours * 3600)
        then ok tt
        else err bad_verification)
    unfolding registered new_user
    register_then_verify =
        elim (Bool-cases (ltb n (env.settings.email_verification_ttl_hours * 3600))) [
          | inl live ↦ rw live (
              ap (λ p. p.0)
                (verify_email_lem d.token (registered env d email password name w) later
                  (entry-later ∙ rw live)
                  (rw users-later (found_by_id env d email password name w new))))
          | inr dead ↦
              rw dead (ap (λ p. p.0) (verify_unknown d.token later (entry-later ∙ rw dead)))
        ]

    module _ (h : n < env.settings.email_verification_ttl_hours * 3600) where
      abbrev row : User
      row = registered env d email password name w

      verify_lem : verify_email env d.token later ≡ (
        ok tt,
        record later {
          users = env.users.write (verified row) later.users;
          redis = env.redis.delete (email_verify_key d.token ∷ []) later.redis;
        },
      )
      unfolding registered new_user
      verify_lem =
          verify_email_lem d.token row later
            (entry-later
              ∙ (let live : ltb n (env.settings.email_verification_ttl_hours * 3600) ≡ true =
                    ground arith in
                  rw live))
            (rw users-later (found_by_id env d email password name w new))

      lock-verified :
          IsOpen (env.redis.ttl (login_lock_key (env.libs.lower email)) w.redis)
          → IsOpen (
              env.redis.ttl
                (login_lock_key (env.libs.lower email))
                (verify_email env d.token later).1.redis)
      lock-verified o =
          rw (verify_lem, later_lem)
            (simp
              (
                env.redis.ttl-delete, env.redis.ttl-elapse, env.redis.ttl-set,
                env.positive.verification, key_laws,
              )
              (IsOpen-age n _ o))

      found-verified :
          env.users.get_by_email (env.libs.lower email) (verify_email env d.token later).1.users
          ≡ ok (some (verified row))
      unfolding registered new_user
      found-verified =
          rw (verify_lem, users-later)
            (env.users.get_by_email-write (env.libs.lower email) (verified row) row row
                (added env d email password name w) (add_ok env d email password name w new).1
                (found_by_id env d email password name w new) refl refl
                (found_by_email env d email password name w new)
              ∙ rw ==_refl)

      -- In a valid user store, let an address be new and unlocked, and the drawn id be fresh. After
      -- `register`, and `verify_email` with the token that it returned, less than
      -- EMAIL_VERIFICATION_TTL_HOURS later, a login with the address and the password of the
      -- registration returns tokens.
      pub register_verify_login :
          (d' : Draws)
          → IsOpen (env.redis.ttl (login_lock_key (env.libs.lower email)) w.redis)
          → (tokens : String × String) × ((login env d' email password
                (verify_email env d.token later).1).0
              ≡ ok tokens)
      unfolding registered new_user
      register_verify_login d' o = (
        _,
        ap (λ p. p.0)
            (login_passes env d' email password (verified row) (verify_email env d.token later).1
                (lock-verified o) found-verified (verify-hash env d.salt password) refl refl
              ∙ issue_token_pair_lem env d' d.id _),
      )
