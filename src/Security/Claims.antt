-- ===== src/Security/Claims.antt =====
-- What a token that the application has issued decodes to, while it is valid and afterwards.
use task_mgt_app.Base.{◌+◌, ◌*◌, ◌≤◌, ◌<◌, ◌≡◌, refl, none, some, [], ◌∷◌}
use task_mgt_app.Base.Dict.{Dict, lookup}
use task_mgt_app.Entity.{Uuid, Instant}
use task_mgt_app.Libraries.{Libraries, Claim, text}
use task_mgt_app.Settings.{Settings}
use task_mgt_app.Security.{
  access, refresh, payload_of, create_access_token, create_refresh_token, decode_token,
}

module _ (libs : Libraries) (settings : Settings) where
  pub access_payload : Instant → Uuid → Uuid → Dict Claim
  access_payload iat jti user =
      payload_of iat (libs.uuid_str jti) (libs.uuid_str user) access
        (settings.access_token_expire_minutes * 60) none

  pub refresh_payload : Instant → Uuid → Uuid → Uuid → Dict Claim
  refresh_payload iat drawn fresh user =
      payload_of iat (libs.uuid_str drawn) (libs.uuid_str user) refresh
        (settings.refresh_token_expire_days * 86400)
        (some (("jti", text (libs.uuid_str fresh)) ∷ []))

  module _ (iat now : Instant) where
    pub decode-create_access :
        (jti user : Uuid)
        → iat ≤ now
        → now < iat + settings.access_token_expire_minutes * 60
        → decode_token libs settings now (create_access_token libs settings iat jti user)
          ≡ some (access_payload iat jti user)
    unfolding decode_token create_access_token access_payload lookup
    decode-create_access jti user h k =
        libs.jwt_decode-jwt_encode now iat (iat + settings.access_token_expire_minutes * 60) _ _ _
          refl refl h k

    pub decode-create_refresh :
        (drawn fresh user : Uuid)
        → iat ≤ now
        → now < iat + settings.refresh_token_expire_days * 86400
        → decode_token libs settings now (create_refresh_token libs settings iat drawn fresh user).0
          ≡ some (refresh_payload iat drawn fresh user)
    unfolding decode_token create_refresh_token refresh_payload lookup
    decode-create_refresh drawn fresh user h k =
        libs.jwt_decode-jwt_encode now iat (iat + settings.refresh_token_expire_days * 86400) _ _ _
          refl refl h k

    pub decode_refresh_expired :
        (drawn fresh user : Uuid)
        → iat + settings.refresh_token_expire_days * 86400 ≤ now
        → decode_token libs settings now (create_refresh_token libs settings iat drawn fresh user).0
          ≡ none
    unfolding decode_token create_refresh_token lookup
    decode_refresh_expired drawn fresh user h = libs.jwt_decode_expired now _ _ _ _ refl h

  -- The claims that the services read.
  pub access_claims :
      (iat : Instant) (jti user : Uuid)
      → (lookup "type" (access_payload iat jti user) ≡ some (text "access"))
        × (lookup "sub" (access_payload iat jti user) ≡ some (text (libs.uuid_str user)))
  unfolding access_payload payload_of lookup
  access_claims iat jti user = (refl, refl)

  pub refresh_claims :
      (iat : Instant) (drawn fresh user : Uuid)
      → (lookup "type" (refresh_payload iat drawn fresh user) ≡ some (text "refresh"))
        × (lookup "sub" (refresh_payload iat drawn fresh user) ≡ some (text (libs.uuid_str user)))
        × (lookup "jti" (refresh_payload iat drawn fresh user) ≡ some (text (libs.uuid_str fresh)))
  unfolding refresh_payload payload_of lookup
  refresh_claims iat drawn fresh user = (refl, refl, refl)
