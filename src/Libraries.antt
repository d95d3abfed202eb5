-- ===== src/Libraries.antt =====
-- The third-party code that the services call: argon2, PyJWT, `uuid` texts and `str.lower`, as
-- functions that are not given, with what their documentation promises.
use task_mgt_app.Base.{ℕ, ◌≤◌, ◌<◌, String, ◌≡◌, Option, none, some}
use task_mgt_app.Base.Dict.{Dict, lookup}
use task_mgt_app.Entity.{Uuid, Instant}

-- A claim of a token: a text, or an instant in seconds.
pub data Claim : Type 0 where
  text : String → Claim
  time : Instant → Claim

-- How `PasswordHasher.verify` ends: `True`, `VerifyMismatchError`, another of argon2's errors.
pub data Verification : Type 0 where
  verified mismatch failed : Verification

pub record Libraries : Type 0 where
  -- `str.lower`
  pub lower : String → String
  pub lower_idem : (s : String) → lower (lower s) ≡ lower s
  -- `str(uuid)` and `uuid.UUID(text)`, where `none` is a `ValueError`
  pub uuid_str : Uuid → String
  pub uuid_parse : String → Option Uuid
  pub uuid_parse-uuid_str : (u : Uuid) → uuid_parse (uuid_str u) ≡ some u
  -- `PasswordHasher.hash` with the salt that it drew, and `PasswordHasher.verify`
  pub argon_hash : ℕ → String → String
  pub argon_verify : String → String → Verification
  pub argon_verify-argon_hash :
      (salt : ℕ) (p : String) → argon_verify (argon_hash salt p) p ≡ verified
  -- `jwt.encode(payload, key, algorithm)`, and `jwt.decode` at an instant, where `none` is a
  -- `PyJWTError`
  pub jwt_encode : Dict Claim → String → String → String
  pub jwt_decode : Instant → String → String → String → Option (Dict Claim)
  pub jwt_decode-jwt_encode :
      (now iat exp : Instant) (d : Dict Claim) (key algorithm : String)
      → lookup "iat" d ≡ some (time iat)
      → lookup "exp" d ≡ some (time exp)
      → iat ≤ now
      → now < exp
      → jwt_decode now (jwt_encode d key algorithm) key algorithm ≡ some d
  pub jwt_decode_expired :
      (now exp : Instant) (d : Dict Claim) (key algorithm : String)
      → lookup "exp" d ≡ some (time exp)
      → exp ≤ now
      → jwt_decode now (jwt_encode d key algorithm) key algorithm ≡ none
