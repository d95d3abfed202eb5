-- ===== src/Http/Auth.antt =====
-- app/auth/router.py: the endpoints over `AuthService`, with the mails that they leave to the
-- background tasks.
use task_mgt_app.Base.{String, ◌≡◌, arith, Option, none, some, List, [], ◌∷◌}
use task_mgt_app.Auth.Deps as Deps
use task_mgt_app.Auth.Model.{User}
use task_mgt_app.Auth.Reset.Request.{request_unknown, request_known}
use task_mgt_app.Auth.Service as Service
use task_mgt_app.Auth.World.{Env, World, Draws, Action, ◌>>=◌, ◌>>◌, pure}
use task_mgt_app.Errors.{Result, ok, err}

pub record MessageResponse : Type 0 where
  pub message : String

pub record TokenPair : Type 0 where
  pub access_token : String
  pub refresh_token : String
  pub token_type : String

-- A background task: the method of the notification service, with its arguments.
pub data Mail : Type 0 where
  send_verification_email send_password_reset_email : String → String → Mail

module _ (env : Env) where
  unfoldable pub register : Draws → String → String → String → Action env (User × List Mail)
  register draws email password full_name = do
    created ← Service.register env draws email password full_name
    pure (created.0, send_verification_email created.0.email created.1 ∷ [])

  unfoldable pub verify_email : String → Action env MessageResponse
  verify_email token = do
    Service.verify_email env token
    pure (record { message = "Email verified successfully." })

  unfoldable pub login : Draws → String → String → Action env TokenPair
  login draws email password = do
    tokens ← Service.login env draws email password
    pure (record { access_token = tokens.0; refresh_token = tokens.1; token_type = "bearer" })

  unfoldable pub refresh : Draws → String → Action env TokenPair
  refresh draws refresh_token = do
    tokens ← Service.refresh_access_token env draws refresh_token
    pure (record { access_token = tokens.0; refresh_token = tokens.1; token_type = "bearer" })

  unfoldable pub logout : String → Action env (Unit {0})
  logout refresh_token = Service.logout env refresh_token

  -- `if result is not None: …`
  unfoldable pub reset_mails : Option (User × String) → List Mail
  reset_mails none = []
  reset_mails (some (user, token)) = send_password_reset_email user.email token ∷ []

  unfoldable pub forgot_password : Draws → String → Action env (MessageResponse × List Mail)
  forgot_password draws email = do
    result ← Service.request_password_reset env draws email
    pure (
      record { message = "If an account with that email exists, a reset link has been sent." },
      reset_mails result,
    )

  unfoldable pub reset_password : Draws → String → String → Action env MessageResponse
  reset_password draws token new_password = do
    Service.reset_password env draws token new_password
    pure (record { message = "Password reset successfully." })

  unfoldable pub get_me : String → Action env User
  get_me credentials = Deps.get_current_user env credentials

  abbrev pub body : Result (MessageResponse × List Mail) → Result MessageResponse
  body (ok r) = ok r.0
  body (err e) = err e

  abbrev pub mails : Result (MessageResponse × List Mail) → List Mail
  mails (ok r) = r.1
  mails (err e) = []

  -- For an address of a user and one that nobody has, `forgot_password` answers with the same body.
  -- The mail with the new token goes to the user in the first case; in the second there is no mail,
  -- and nothing changes.
  pub forgot_alike :
      (d d' : Draws) (known unknown : String) (user : User) (w : World env)
      → env.users.get_by_email (env.libs.lower known) w.users ≡ ok (some user)
      → env.users.get_by_email (env.libs.lower unknown) w.users ≡ ok none
      → (body (forgot_password d known w).0 ≡ body (forgot_password d' unknown w).0)
        × (mails (forgot_password d known w).0 ≡ send_password_reset_email user.email d.token ∷ [])
        × (mails (forgot_password d' unknown w).0 ≡ [])
        × ((forgot_password d' unknown w).1 ≡ w)
  unfolding forgot_password reset_mails
  forgot_alike d d' known unknown user w h k =
      let found = request_known env d known user w h in
      let missed = request_unknown env d' unknown w k in
      (
        ground (arith, found, missed),
        ground (arith, found),
        ground (arith, missed),
        ground (arith, missed),
      )
