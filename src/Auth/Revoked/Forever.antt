-- ===== src/Auth/Revoked/Forever.antt =====
-- A refresh token that has ended, behind any sequence of calls.
use task_mgt_app.Base.{String, ◌≡◌, some}
use task_mgt_app.Auth.Good.{Good}
use task_mgt_app.Auth.Keys.{refresh_token_key}
use task_mgt_app.Auth.Model.{User}
use task_mgt_app.Auth.Reach.{
  Step, registers, verifies, logs_in, forgets, resets, refreshes, logs_out, waits,
}
use task_mgt_app.Auth.Reset.{IsResetToken, absent-wait, revoked_tokens}
use task_mgt_app.Auth.Revoked.{
  Absent, Avoids, register-Absent, verify_email-Absent, login-Absent, request_password_reset-Absent,
  reset_password-Absent, refresh-Absent, logout-Absent,
}
use task_mgt_app.Auth.Service.{bad_refresh, reset_password, refresh_access_token, logout}
use task_mgt_app.Auth.Sessions.{IsRefreshToken, refresh_refused}
use task_mgt_app.Auth.Sessions.Lifetime.{rotated_entry}
use task_mgt_app.Auth.Sessions.Logout.{logout_entry}
use task_mgt_app.Auth.World.{Env, World, Draws}
use task_mgt_app.Entity.{Uuid}
use task_mgt_app.Errors.{err}

module _ (env : Env) (jti : String) where
  -- A step whose draws do not repeat the jti.
  abbrev pub IsApart : {s t : World env} → Step env s t → Type 0
  IsApart (logs_in d _ _ _) = Avoids env jti d
  IsApart (refreshes d _ _) = Avoids env jti d
  IsApart _ = Unit

  pub data ReachApart (s : World env) : World env → Type 0 where
    here : ReachApart s s
    next :
        {t u : World env} → ReachApart s t → (step : Step env t u) → IsApart step → ReachApart s u

  Step-Absent :
      (owner : String) {s t : World env} (step : Step env s t)
      → IsApart step
      → Absent env jti owner s
      → Absent env jti owner t
  Step-Absent owner (registers d email password name w) a =
      (register-Absent env jti owner d email password name).at w
  Step-Absent owner (verifies token w) a = (verify_email-Absent env jti owner token).at w
  Step-Absent owner (logs_in d email password w) a =
      (login-Absent env jti owner d email password a).at w
  Step-Absent owner (forgets d email w) a =
      (request_password_reset-Absent env jti owner d email).at w
  Step-Absent owner (resets d token password w) a =
      (reset_password-Absent env jti owner d token password).at w
  Step-Absent owner (refreshes d token w) a = (refresh-Absent env jti owner d token a).at w
  Step-Absent owner (logs_out token w) a = (logout-Absent env jti owner token).at w
  Step-Absent owner (waits n w) a = absent-wait env n jti owner w

  ReachApart-Absent :
      (owner : String) {s t : World env}
      → ReachApart s t
      → Absent env jti owner s
      → Absent env jti owner t
  ReachApart-Absent owner here h = h
  ReachApart-Absent owner (next r step a) h = Step-Absent owner step a (ReachApart-Absent owner r h)

  -- The calls that end a refresh token of a user: its exchange, its logout, and a reset of the
  -- user's password.
  pub data Ends (token : String) (user : Uuid) : World env → World env → Type 0 where
    exchanged :
        (d : Draws) (w : World env)
        → IsRefreshToken env token jti (env.libs.uuid_str user) w.now
        → env.redis.get (refresh_token_key jti) w.redis ≡ some (env.libs.uuid_str user)
        → Avoids env jti d
        → Ends token user w (refresh_access_token env d token w).1
    logged_out :
        (w : World env)
        → IsRefreshToken env token jti (env.libs.uuid_str user) w.now
        → Ends token user w (logout env token w).1
    reset :
        (d : Draws) (reset_token password : String) (u : User) (w : World env)
        → u.id ≡ user
        → Good env w
        → IsResetToken env reset_token u w
        → Ends token user w (reset_password env d reset_token password w).1

  Ends-Absent :
      {token : String} {user : Uuid} {s t : World env}
      → Ends token user s t
      → Absent env jti (env.libs.uuid_str user) t
  Ends-Absent {user = user} (exchanged d w t stored apart) e =
      cc (e, rotated_entry env d user w t stored apart)
  Ends-Absent {user = user} (logged_out w t) e = cc (e, logout_entry env user w t)
  Ends-Absent {user = user} (reset d reset_token password u w same good t) e =
      revoked_tokens env d reset_token password u w good t jti (rw same e)

  -- Let a refresh token of a user end: `refresh_access_token` exchanges it, drawing another jti,
  -- `logout` is called with it, or `reset_password` sets a new password of the user in a state in
  -- which every stored token stands in its user's set. Behind it let any sequence of calls of the
  -- seven public methods of the auth service and of waits follow, with any arguments, by anyone, of
  -- which no login and no refresh draws the same jti. As long as the token still decodes,
  -- `refresh_access_token` refuses it and changes nothing.
  pub ended_forever :
      {token : String} {r s t : World env} (d : Draws) (user : Uuid)
      → Ends token user r s
      → ReachApart s t
      → IsRefreshToken env token jti (env.libs.uuid_str user) t.now
      → refresh_access_token env d token t ≡ (err bad_refresh, t)
  ended_forever {t = t} d user ends reach session =
      refresh_refused env d t session
        (ReachApart-Absent (env.libs.uuid_str user) reach (Ends-Absent ends))
