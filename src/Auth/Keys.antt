-- ===== src/Auth/Keys.antt =====
-- The Redis keys of app/auth/service.py, and comparisons of any two of them.
use task_mgt_app.Base.{
  String, ◌++◌, ◌≡◌, refl, false, str_eq, append-ne, str_eq-append, or-false, str_eq_refl,
}

pub email_verify_key : String → String
email_verify_key token = "email_verify:" ++ token

pub login_lock_key : String → String
login_lock_key email = "login_lock:" ++ email

pub login_attempts_key : String → String
login_attempts_key email = "login_attempts:" ++ email

pub pwd_reset_key : String → String
pwd_reset_key token = "pwd_reset:" ++ token

pub refresh_token_key : String → String
refresh_token_key jti = "refresh_token:" ++ jti

-- The argument is the text of the user's id, as the f-string writes it.
pub user_tokens_key : String → String
user_tokens_key user_id = "user_refresh_tokens:" ++ user_id

pub email_verify_key_eq :
    (a b : String) → str_eq (email_verify_key a) (email_verify_key b) ≡ str_eq a b
unfolding email_verify_key
email_verify_key_eq a b = str_eq-append "email_verify:" a b

pub login_lock_key_eq : (a b : String) → str_eq (login_lock_key a) (login_lock_key b) ≡ str_eq a b
unfolding login_lock_key
login_lock_key_eq a b = str_eq-append "login_lock:" a b

pub login_attempts_key_eq :
    (a b : String) → str_eq (login_attempts_key a) (login_attempts_key b) ≡ str_eq a b
unfolding login_attempts_key
login_attempts_key_eq a b = str_eq-append "login_attempts:" a b

pub pwd_reset_key_eq : (a b : String) → str_eq (pwd_reset_key a) (pwd_reset_key b) ≡ str_eq a b
unfolding pwd_reset_key
pwd_reset_key_eq a b = str_eq-append "pwd_reset:" a b

pub refresh_token_key_eq :
    (a b : String) → str_eq (refresh_token_key a) (refresh_token_key b) ≡ str_eq a b
unfolding refresh_token_key
refresh_token_key_eq a b = str_eq-append "refresh_token:" a b

pub user_tokens_key_eq :
    (a b : String) → str_eq (user_tokens_key a) (user_tokens_key b) ≡ str_eq a b
unfolding user_tokens_key
user_tokens_key_eq a b = str_eq-append "user_refresh_tokens:" a b

pub verify-lock : (a b : String) → str_eq (email_verify_key a) (login_lock_key b) ≡ false
unfolding email_verify_key login_lock_key
verify-lock a b = append-ne 0 "email_verify:" "login_lock:" a b refl

pub verify-attempts : (a b : String) → str_eq (email_verify_key a) (login_attempts_key b) ≡ false
unfolding email_verify_key login_attempts_key
verify-attempts a b = append-ne 0 "email_verify:" "login_attempts:" a b refl

pub verify-reset : (a b : String) → str_eq (email_verify_key a) (pwd_reset_key b) ≡ false
unfolding email_verify_key pwd_reset_key
verify-reset a b = append-ne 0 "email_verify:" "pwd_reset:" a b refl

pub verify-refresh : (a b : String) → str_eq (email_verify_key a) (refresh_token_key b) ≡ false
unfolding email_verify_key refresh_token_key
verify-refresh a b = append-ne 0 "email_verify:" "refresh_token:" a b refl

pub verify-user : (a b : String) → str_eq (email_verify_key a) (user_tokens_key b) ≡ false
unfolding email_verify_key user_tokens_key
verify-user a b = append-ne 0 "email_verify:" "user_refresh_tokens:" a b refl

pub lock-verify : (a b : String) → str_eq (login_lock_key a) (email_verify_key b) ≡ false
unfolding login_lock_key email_verify_key
lock-verify a b = append-ne 0 "login_lock:" "email_verify:" a b refl

pub lock-attempts : (a b : String) → str_eq (login_lock_key a) (login_attempts_key b) ≡ false
unfolding login_lock_key login_attempts_key
lock-attempts a b = append-ne 6 "login_lock:" "login_attempts:" a b refl

pub lock-reset : (a b : String) → str_eq (login_lock_key a) (pwd_reset_key b) ≡ false
unfolding login_lock_key pwd_reset_key
lock-reset a b = append-ne 0 "login_lock:" "pwd_reset:" a b refl

pub lock-refresh : (a b : String) → str_eq (login_lock_key a) (refresh_token_key b) ≡ false
unfolding login_lock_key refresh_token_key
lock-refresh a b = append-ne 0 "login_lock:" "refresh_token:" a b refl

pub lock-user : (a b : String) → str_eq (login_lock_key a) (user_tokens_key b) ≡ false
unfolding login_lock_key user_tokens_key
lock-user a b = append-ne 0 "login_lock:" "user_refresh_tokens:" a b refl

pub attempts-verify : (a b : String) → str_eq (login_attempts_key a) (email_verify_key b) ≡ false
unfolding login_attempts_key email_verify_key
attempts-verify a b = append-ne 0 "login_attempts:" "email_verify:" a b refl

pub attempts-lock : (a b : String) → str_eq (login_attempts_key a) (login_lock_key b) ≡ false
unfolding login_attempts_key login_lock_key
attempts-lock a b = append-ne 6 "login_attempts:" "login_lock:" a b refl

pub attempts-reset : (a b : String) → str_eq (login_attempts_key a) (pwd_reset_key b) ≡ false
unfolding login_attempts_key pwd_reset_key
attempts-reset a b = append-ne 0 "login_attempts:" "pwd_reset:" a b refl

pub attempts-refresh : (a b : String) → str_eq (login_attempts_key a) (refresh_token_key b) ≡ false
unfolding login_attempts_key refresh_token_key
attempts-refresh a b = append-ne 0 "login_attempts:" "refresh_token:" a b refl

pub attempts-user : (a b : String) → str_eq (login_attempts_key a) (user_tokens_key b) ≡ false
unfolding login_attempts_key user_tokens_key
attempts-user a b = append-ne 0 "login_attempts:" "user_refresh_tokens:" a b refl

pub reset-verify : (a b : String) → str_eq (pwd_reset_key a) (email_verify_key b) ≡ false
unfolding pwd_reset_key email_verify_key
reset-verify a b = append-ne 0 "pwd_reset:" "email_verify:" a b refl

pub reset-lock : (a b : String) → str_eq (pwd_reset_key a) (login_lock_key b) ≡ false
unfolding pwd_reset_key login_lock_key
reset-lock a b = append-ne 0 "pwd_reset:" "login_lock:" a b refl

pub reset-attempts : (a b : String) → str_eq (pwd_reset_key a) (login_attempts_key b) ≡ false
unfolding pwd_reset_key login_attempts_key
reset-attempts a b = append-ne 0 "pwd_reset:" "login_attempts:" a b refl

pub reset-refresh : (a b : String) → str_eq (pwd_reset_key a) (refresh_token_key b) ≡ false
unfolding pwd_reset_key refresh_token_key
reset-refresh a b = append-ne 0 "pwd_reset:" "refresh_token:" a b refl

pub reset-user : (a b : String) → str_eq (pwd_reset_key a) (user_tokens_key b) ≡ false
unfolding pwd_reset_key user_tokens_key
reset-user a b = append-ne 0 "pwd_reset:" "user_refresh_tokens:" a b refl

pub refresh-verify : (a b : String) → str_eq (refresh_token_key a) (email_verify_key b) ≡ false
unfolding refresh_token_key email_verify_key
refresh-verify a b = append-ne 0 "refresh_token:" "email_verify:" a b refl

pub refresh-lock : (a b : String) → str_eq (refresh_token_key a) (login_lock_key b) ≡ false
unfolding refresh_token_key login_lock_key
refresh-lock a b = append-ne 0 "refresh_token:" "login_lock:" a b refl

pub refresh-attempts : (a b : String) → str_eq (refresh_token_key a) (login_attempts_key b) ≡ false
unfolding refresh_token_key login_attempts_key
refresh-attempts a b = append-ne 0 "refresh_token:" "login_attempts:" a b refl

pub refresh-reset : (a b : String) → str_eq (refresh_token_key a) (pwd_reset_key b) ≡ false
unfolding refresh_token_key pwd_reset_key
refresh-reset a b = append-ne 0 "refresh_token:" "pwd_reset:" a b refl

pub refresh-user : (a b : String) → str_eq (refresh_token_key a) (user_tokens_key b) ≡ false
unfolding refresh_token_key user_tokens_key
refresh-user a b = append-ne 0 "refresh_token:" "user_refresh_tokens:" a b refl

pub user-verify : (a b : String) → str_eq (user_tokens_key a) (email_verify_key b) ≡ false
unfolding user_tokens_key email_verify_key
user-verify a b = append-ne 0 "user_refresh_tokens:" "email_verify:" a b refl

pub user-lock : (a b : String) → str_eq (user_tokens_key a) (login_lock_key b) ≡ false
unfolding user_tokens_key login_lock_key
user-lock a b = append-ne 0 "user_refresh_tokens:" "login_lock:" a b refl

pub user-attempts : (a b : String) → str_eq (user_tokens_key a) (login_attempts_key b) ≡ false
unfolding user_tokens_key login_attempts_key
user-attempts a b = append-ne 0 "user_refresh_tokens:" "login_attempts:" a b refl

pub user-reset : (a b : String) → str_eq (user_tokens_key a) (pwd_reset_key b) ≡ false
unfolding user_tokens_key pwd_reset_key
user-reset a b = append-ne 0 "user_refresh_tokens:" "pwd_reset:" a b refl

pub user-refresh : (a b : String) → str_eq (user_tokens_key a) (refresh_token_key b) ≡ false
unfolding user_tokens_key refresh_token_key
user-refresh a b = append-ne 0 "user_refresh_tokens:" "refresh_token:" a b refl

pub ruleset key_laws = (
  or-false, str_eq_refl, email_verify_key_eq, login_lock_key_eq, login_attempts_key_eq,
  pwd_reset_key_eq, refresh_token_key_eq, user_tokens_key_eq, verify-lock, verify-attempts,
  verify-reset, verify-refresh, verify-user, lock-verify, lock-attempts, lock-reset, lock-refresh,
  lock-user, attempts-verify, attempts-lock, attempts-reset, attempts-refresh, attempts-user,
  reset-verify, reset-lock, reset-attempts, reset-refresh, reset-user, refresh-verify, refresh-lock,
  refresh-attempts, refresh-reset, refresh-user, user-verify, user-lock, user-attempts, user-reset,
  user-refresh,
)
