-- ===== src/Auth/Model.antt =====
-- `class User` of app/auth/models.py.
use task_mgt_app.Base.{String, Bool, true, false, none}
use task_mgt_app.Entity.{Entity, Uuid, Instant}

pub record User : Type 0 where
  pub entity : Entity
  pub open entity use *
  pub email : String
  pub password_hash : String
  pub full_name : String
  pub is_email_verified : Bool
  pub is_active : Bool

-- `User(email=…, password_hash=…, full_name=…)` as it is inserted: the column defaults, with the
-- `uuid4` that the id defaults to and the server's `now()`.
unfoldable pub new_user : Uuid → Instant → String → String → String → User
new_user id now email password_hash full_name = record {
  entity = record { id = id; created_at = now; updated_at = now; deleted_at = none };
  email = email;
  password_hash = password_hash;
  full_name = full_name;
  is_email_verified = false;
  is_active = true;
}
