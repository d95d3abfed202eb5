-- ===== src/Auth/Registration.antt =====
-- Registration: `register` on a taken and on a new address.
pub mod Verification
use task_mgt_app.Base.{
  ℕ, ◌+◌, ◌*◌, String, ◌≡◌, refl, ap, ◌∙◌, true, none, some, [], ◌∷◌, arith, ltb, str_eq_refl,
  ==_refl, Bool-cases, inl, inr, if◌then◌else◌, ℤ, pos, negsuc,
}
use task_mgt_app.Auth.Keys.{email_verify_key, login_lock_key, key_laws}
use task_mgt_app.Auth.Login.{IsOpen, login_passes}
use task_mgt_app.Auth.Model.{User, new_user}
use task_mgt_app.Auth.Calls.{issue_token_pair_lem}
use task_mgt_app.Auth.Service.{bad_verification, register, verify_email, login}
use task_mgt_app.Auth.World.{Env, World, Draws, wait}
use task_mgt_app.Errors.{ok, err, app, email_already_registered}
use task_mgt_app.Redis.{age}
use task_mgt_app.Security.{hash_password, verify_password}

module _ (env : Env) where
  -- If a user is found for the lower case form of an address, `register` answers
  -- EmailAlreadyRegisteredError, and changes nothing.
  register_taken :
      (d : Draws) (email password name : String) (user : User) (w : World env)
      → env.users.get_by_email (env.libs.lower email) w.users ≡ ok (some user)
      → register env d email password name w
        ≡ (err (app (email_already_registered "An account with this email already exists.")), w)
  unfolding register
  register_taken d email password name user w h = ground arith

  module _ (d : Draws) (email password name : String) (w : World env) where
    abbrev pub lifetime : ℕ
    lifetime = env.settings.email_verification_ttl_hours * 3600

    -- The row that `register` inserts, with the password hashed and the address in lower case.
    pub registered : User
    registered =
        new_user d.id w.now (env.libs.lower email)
          (hash_password env.libs env.settings d.salt password) name

    -- A new address, and an id that no row has.
    pub record IsNew : Type 0 where
      pub valid : env.users.IsValid w.users
      pub fresh : env.users.IsFresh d.id w.users
      pub free : env.users.get_by_email (env.libs.lower email) w.users ≡ ok none

    abbrev pub added : env.users.State
    added = (env.users.add registered w.users).1

    module _ (h : IsNew) where
      pub add_ok : ((env.users.add registered w.users).0 ≡ ok registered) × env.users.IsValid added
      unfolding registered new_user
      add_ok =
          env.users.add_new registered w.users h.valid h.fresh refl (env.libs.lower_idem email)
            h.free

      pub register_lem : register env d email password name w ≡ (
        ok (registered, d.token),
        record w {
          users = added;
          redis =
              env.redis.set (email_verify_key d.token) (env.libs.uuid_str d.id) lifetime w.redis;
        },
      )
      unfolding register registered new_user
      register_lem = ground (arith, add_ok.0)

      pub found_by_id : env.users.get_by_id d.id added ≡ ok (some registered)
      unfolding registered new_user
      found_by_id =
          env.users.get_by_id-add d.id registered w.users h.fresh add_ok.0 refl ∙ rw ==_refl

      pub found_by_email :
          env.users.get_by_email (env.libs.lower email) added ≡ ok (some registered)
      unfolding registered new_user
      found_by_email =
          env.users.get_by_email-add (env.libs.lower email) registered w.users h.valid h.fresh
            add_ok.0 refl (env.libs.lower_idem email) h.free
