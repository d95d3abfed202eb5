-- ===== src/Tests/Auth.antt =====
-- What the examples of the auth module run in: a user store and a Redis in memory, toy libraries.
pub mod Login
mod Tokens
pub mod Sessions
mod Race
use Prim.Native.Char.{Char}
use task_mgt_app.Base.{
  ℕ, zero, suc, ◌+◌, ◌≤◌, ◌<◌, String, ◌≡◌, refl, Bool, true, false, ◌&&◌, Option, none, some, List,
  [], ◌∷◌, arith, leb, ltb, str_eq, str_eq_refl, if◌then◌else◌,
}
use task_mgt_app.Auth.Model.{User}
use task_mgt_app.Auth.Fake.{fake_users}
use task_mgt_app.Auth.World.{Env, World, Draws}
use task_mgt_app.Base.Dict.{Dict, lookup}
use task_mgt_app.Entity.{Uuid, Instant}
use task_mgt_app.Libraries.{Libraries, Claim, text, time, Verification, verified, mismatch}
use task_mgt_app.Settings.{Settings, IsPositive}
use task_mgt_app.Tests.Codec.{encode, decode, decode-encode}
use task_mgt_app.Tests.MemoryRedis.{Memory, memory_redis}

-- A UUID as a text of that many letters.
abbrev pub id_text : Uuid → String
id_text zero = String.[]
id_text (suc n) = let c : Char = "u" in String.◌∷◌ c (id_text n)

abbrev pub id_of : String → Uuid
id_of String.[] = 0
id_of (String.◌∷◌ c s) = suc (id_of s)

pub id_of-id_text : (u : Uuid) → id_of (id_text u) ≡ u
id_of-id_text zero = refl
id_of-id_text (suc n) = rw (id_of-id_text n)

abbrev checked : Instant → Option (Dict Claim) → Option (Dict Claim)
checked now none = none
checked now (some d) = elim (lookup "iat" d) [
  | some (time iat) ↦ elim (lookup "exp" d) [
    | some (time exp) ↦ if leb iat now && ltb now exp then some d else none
    | _ ↦ none
  ]
  | _ ↦ none
]

unfoldable pub jwt_decode : Instant → String → String → String → Option (Dict Claim)
jwt_decode now s key algorithm = checked now (decode s)

pub jwt_round :
    (now iat exp : Instant) (d : Dict Claim) (key algorithm : String)
    → lookup "iat" d ≡ some (time iat)
    → lookup "exp" d ≡ some (time exp)
    → iat ≤ now
    → now < exp
    → jwt_decode now (encode d) key algorithm ≡ some d
unfolding jwt_decode
jwt_round now iat exp d key algorithm h k p q = ground (arith, decode-encode d)

pub jwt_expired :
    (now exp : Instant) (d : Dict Claim) (key algorithm : String)
    → lookup "exp" d ≡ some (time exp)
    → exp ≤ now
    → jwt_decode now (encode d) key algorithm ≡ none
unfolding jwt_decode
jwt_expired now exp d key algorithm h p = ground (arith, decode-encode d)

abbrev pub libs : Libraries
libs = record {
  lower = λ s. s;
  lower_idem = λ s. refl;
  uuid_str = id_text;
  uuid_parse = λ s. some (id_of s);
  uuid_parse-uuid_str = λ u. rw (id_of-id_text u);
  argon_hash = λ salt p. p;
  argon_verify = λ h p. if str_eq h p then verified else mismatch;
  argon_verify-argon_hash = λ salt p. rw str_eq_refl;
  jwt_encode = λ d key algorithm. encode d;
  jwt_decode = jwt_decode;
  jwt_decode-jwt_encode = jwt_round;
  jwt_decode_expired = jwt_expired;
}

abbrev pub settings : Settings
settings = record {
  environment = "local";
  database_url = "postgresql+asyncpg://localhost/taskdb";
  redis_url = "redis://localhost:6379/0";
  jwt_secret_key = "secret";
  jwt_algorithm = "HS256";
  access_token_expire_minutes = 15;
  refresh_token_expire_days = 7;
  login_max_attempts = 3;
  login_lockout_minutes = 15;
  email_verification_ttl_hours = 24;
  password_reset_ttl_minutes = 30;
  gmail_user = "";
  gmail_app_password = "";
  mail_from_name = "Task Manager";
  frontend_url = "http://localhost:3000";
  log_level = "INFO";
}

pub settings-IsPositive : IsPositive settings
settings-IsPositive = omega arith

abbrev pub env : Env
env = record {
  libs = libs;
  settings = settings;
  positive = settings-IsPositive;
  users = fake_users (λ s. s);
  redis = memory_redis;
}

abbrev pub draws : Draws
draws = record {
  id = 7;
  salt = 1;
  token = "tok";
  access_jti = 11;
  refresh_jti = 12;
  spare_jti = 13;
}

abbrev pub draws' : Draws
draws' = record {
  id = 8;
  salt = 2;
  token = "kot";
  access_jti = 21;
  refresh_jti = 22;
  spare_jti = 23;
}

-- A verified, active account.
abbrev pub ann : User
ann = record {
  entity = record { id = 5; created_at = 0; updated_at = 0; deleted_at = none };
  email = "ann@x.org";
  password_hash = "Secret1!";
  full_name = "Ann";
  is_email_verified = true;
  is_active = true;
}

abbrev pub empty_redis : Memory
empty_redis = record { now = 100; entries = λ k. none }

abbrev pub nobody : World env
nobody = record { users = []; redis = empty_redis; now = 100 }

abbrev pub with_ann : World env
with_ann = record { users = ann ∷ []; redis = empty_redis; now = 100 }
