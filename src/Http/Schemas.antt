-- ===== src/Http/Schemas.antt =====
-- The request bodies of app/auth/schemas.py, app/projects/schemas.py and app/tasks/schemas.py: what
-- pydantic accepts. `EmailStr` is a parameter, a validation that returns the address or refuses it.
use task_mgt_app.Base.{ℕ, String, Bool, true, ◌&&◌, Option, none, some, leb, if◌then◌else◌}
use Prim.Native.String.{len}
use task_mgt_app.Auth.Model.{User}
use task_mgt_app.Entity.{Uuid, Instant}
use task_mgt_app.Http.Passwords.{validate_password_strength, is_accepted}
use task_mgt_app.Http.Projects.{ProjectCreate}
use task_mgt_app.Projects.Model.{ProjectUpdate}
use task_mgt_app.Tasks.Model.{TaskCreate, TaskUpdate}

-- `Field(min_length=…, max_length=…)`
abbrev pub is_within : ℕ → ℕ → String → Bool
is_within min max s = leb min (len s) && leb (len s) max

-- The same of a field that may be null, and of one that may also be left out.
abbrev pub is_null_or : (String → Bool) → Option String → Bool
is_null_or ok none = true
is_null_or ok (some s) = ok s

abbrev pub is_unset_or : (String → Bool) → Option (Option String) → Bool
is_unset_or ok none = true
is_unset_or ok (some o) = is_null_or ok o

-- `StrongPassword`
unfoldable pub is_strong_password : String → Bool
is_strong_password value = is_within 8 128 value && is_accepted (validate_password_strength value)

pub record RegisterRequest : Type 0 where
  pub email : String
  pub password : String
  pub full_name : String

pub record UserRead : Type 0 where
  pub id : Uuid
  pub email : String
  pub full_name : String
  pub is_email_verified : Bool
  pub is_active : Bool
  pub created_at : Instant

-- `UserRead.model_validate`
unfoldable pub user_read : User → UserRead
user_read u = record {
  id = u.id;
  email = u.email;
  full_name = u.full_name;
  is_email_verified = u.is_email_verified;
  is_active = u.is_active;
  created_at = u.created_at;
}

pub record LoginRequest : Type 0 where
  pub email : String
  pub password : String

pub record ResetPasswordRequest : Type 0 where
  pub token : String
  pub new_password : String

-- The body with the address that `EmailStr` returned.
abbrev pub registered_at : RegisterRequest → Option String → Option RegisterRequest
registered_at r none = none
registered_at r (some email) = some (record r { email = email })

abbrev pub with_address : LoginRequest → Option String → Option LoginRequest
with_address r none = none
with_address r (some email) = some (record r { email = email })

module _ (email_str : String → Option String) where
  unfoldable pub validate_register : RegisterRequest → Option RegisterRequest
  unfolding is_strong_password
  validate_register r =
      if is_strong_password r.password && is_within 1 255 r.full_name
      then registered_at r (email_str r.email)
      else none

  unfoldable pub validate_login : LoginRequest → Option LoginRequest
  validate_login r = with_address r (email_str r.email)

unfoldable pub validate_reset : ResetPasswordRequest → Option ResetPasswordRequest
unfolding is_strong_password
validate_reset r = if is_strong_password r.new_password then some r else none

unfoldable pub is_valid_project : ProjectCreate → Bool
is_valid_project p = is_within 1 255 p.name

unfoldable pub is_valid_project_update : ProjectUpdate → Bool
is_valid_project_update p = is_unset_or (is_within 1 255) p.name

unfoldable pub is_valid_task : TaskCreate → Bool
is_valid_task t = is_within 1 255 t.title

unfoldable pub is_valid_task_update : TaskUpdate → Bool
is_valid_task_update t = is_unset_or (is_within 1 255) t.title

-- `search` of the task listing.
unfoldable pub is_valid_search : Option String → Bool
is_valid_search search = is_null_or (is_within 1 255) search
