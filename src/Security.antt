-- ===== src/Security.antt =====
-- app/core/security.py: passwords and tokens. `now` is `datetime.now(UTC)`, and the values that
-- `uuid.uuid4()` returns and the salt of a hash are arguments.
pub mod Claims
use task_mgt_app.Base.{ℕ, ◌+◌, ◌*◌, String, Bool, true, false, Option, none, some, List, [], ◌∷◌}
use task_mgt_app.Base.Dict.{Dict, update}
use task_mgt_app.Entity.{Uuid, Instant}
use task_mgt_app.Errors.{Result, ok, err, hash_error}
use task_mgt_app.Libraries.{Libraries, Claim, text, time, Verification, verified, mismatch, failed}
use task_mgt_app.Settings.{Settings}

pub data TokenType : Type 0 where
  access refresh : TokenType

unfoldable pub value : TokenType → String
value access = "access"
value refresh = "refresh"

-- The payload of `_create_token`, before the extra claims.
unfoldable pub base_payload : Instant → String → String → TokenType → ℕ → Dict Claim
unfolding value
base_payload now jti subject token_type expires_delta =
    ("sub", text subject)
    ∷ ("type", text (value token_type))
    ∷ ("iat", time now)
    ∷ ("exp", time (now + expires_delta))
    ∷ ("jti", text jti)
    ∷ []

unfoldable pub payload_of :
    Instant → String → String → TokenType → ℕ → Option (Dict Claim) → Dict Claim
unfolding base_payload update
payload_of now jti subject token_type expires_delta none =
    base_payload now jti subject token_type expires_delta
payload_of now jti subject token_type expires_delta (some extra_claims) =
    update (base_payload now jti subject token_type expires_delta) extra_claims

abbrev pub verdict : Verification → Result Bool
verdict verified = ok true
verdict mismatch = ok false
verdict failed = err hash_error

module _ (libs : Libraries) (settings : Settings) where
  unfoldable pub hash_password : ℕ → String → String
  hash_password salt raw_password = libs.argon_hash salt raw_password

  unfoldable pub verify_password : String → String → Result Bool
  verify_password raw_password password_hash =
      verdict (libs.argon_verify password_hash raw_password)

  -- `_create_token`, with the text of the `uuid4` that it draws
  unfoldable pub create_token :
      Instant → String → String → TokenType → ℕ → Option (Dict Claim) → String
  unfolding payload_of
  create_token now jti subject token_type expires_delta extra_claims =
      libs.jwt_encode (payload_of now jti subject token_type expires_delta extra_claims)
        settings.jwt_secret_key settings.jwt_algorithm

  unfoldable pub create_access_token : Instant → Uuid → Uuid → String
  unfolding create_token
  create_access_token now jti user_id =
      create_token now (libs.uuid_str jti) (libs.uuid_str user_id) access
        (settings.access_token_expire_minutes * 60) none

  -- Returns the token and its jti; `drawn` is the `uuid4` of `_create_token`, which the extra
  -- claim replaces.
  unfoldable pub create_refresh_token : Instant → Uuid → Uuid → Uuid → String × String
  unfolding create_token
  create_refresh_token now drawn fresh user_id =
      let jti : String = libs.uuid_str fresh in
      (
        create_token now (libs.uuid_str drawn) (libs.uuid_str user_id) refresh
            (settings.refresh_token_expire_days * 86400) (some (("jti", text jti) ∷ [])),
        jti,
      )

  -- `none` is a `PyJWTError`.
  unfoldable pub decode_token : Instant → String → Option (Dict Claim)
  decode_token now token = libs.jwt_decode now token settings.jwt_secret_key settings.jwt_algorithm
