-- ===== src/Settings.antt =====
-- `class Settings` of app/core/config.py. An operator's numbers are taken as natural numbers.
use task_mgt_app.Base.{ℕ, ◌*◌, ◌<◌, String, Bool, str_eq}

pub record Settings : Type 0 where
  pub environment : String
  pub database_url : String
  pub redis_url : String
  pub jwt_secret_key : String
  pub jwt_algorithm : String
  pub access_token_expire_minutes : ℕ
  pub refresh_token_expire_days : ℕ
  pub login_max_attempts : ℕ
  pub login_lockout_minutes : ℕ
  pub email_verification_ttl_hours : ℕ
  pub password_reset_ttl_minutes : ℕ
  pub gmail_user : String
  pub gmail_app_password : String
  pub mail_from_name : String
  pub frontend_url : String
  pub log_level : String

unfoldable pub is_production : Settings → Bool
is_production s = str_eq s.environment "production"

-- Every lifetime and the number of attempts are at least one, as Redis wants of an expiry.
pub record IsPositive (s : Settings) : Type 0 where
  pub attempts : 0 < s.login_max_attempts
  pub lockout : 0 < s.login_lockout_minutes * 60
  pub verification : 0 < s.email_verification_ttl_hours * 3600
  pub reset : 0 < s.password_reset_ttl_minutes * 60
  pub access : 0 < s.access_token_expire_minutes * 60
  pub refresh : 0 < s.refresh_token_expire_days * 86400
