-- ===== src/Auth/Reach.antt =====
-- The states that sequences of calls of app/auth/service.py and waits reach.
use task_mgt_app.Base.{ℕ, String}
use task_mgt_app.Auth.Good.{
  Good, register-Good, verify_email-Good, login-Good, request_password_reset-Good,
  reset_password-Good, refresh-Good, logout-Good,
}
use task_mgt_app.Auth.Index.{elapse-IsIndexed}
use task_mgt_app.Auth.Service.{
  register, verify_email, login, request_password_reset, reset_password, refresh_access_token,
  logout,
}
use task_mgt_app.Auth.World.{Env, World, Draws, wait}

module _ (env : Env) where
  -- One step of the service: a call, whatever its arguments and its random values, or time.
  pub data Step : World env → World env → Type 0 where
    registers :
        (d : Draws) (email password name : String) (w : World env)
        → Step w (register env d email password name w).1
    verifies : (token : String) (w : World env) → Step w (verify_email env token w).1
    logs_in :
        (d : Draws) (email password : String) (w : World env)
        → Step w (login env d email password w).1
    forgets :
        (d : Draws) (email : String) (w : World env)
        → Step w (request_password_reset env d email w).1
    resets :
        (d : Draws) (token password : String) (w : World env)
        → Step w (reset_password env d token password w).1
    refreshes :
        (d : Draws) (token : String) (w : World env) → Step w (refresh_access_token env d token w).1
    logs_out : (token : String) (w : World env) → Step w (logout env token w).1
    waits : (n : ℕ) (w : World env) → Step w (wait n w)

  pub data Reach (s : World env) : World env → Type 0 where
    here : Reach s s
    next : {t u : World env} → Reach s t → Step t u → Reach s u

  Step-Good : {s t : World env} → Step s t → Good env s → Good env t
  unfolding wait
  Step-Good (registers d email password name w) h = (register-Good env d email password name).at w h
  Step-Good (verifies token w) h = (verify_email-Good env token).at w h
  Step-Good (logs_in d email password w) h = (login-Good env d email password).at w h
  Step-Good (forgets d email w) h = (request_password_reset-Good env d email).at w h
  Step-Good (resets d token password w) h = (reset_password-Good env d token password).at w h
  Step-Good (refreshes d token w) h = (refresh-Good env d token).at w h
  Step-Good (logs_out token w) h = (logout-Good env token).at w h
  Step-Good (waits n w) h = elapse-IsIndexed env.redis n w.redis h

  -- If every stored refresh token stands in its user's set, and the sets have no expiry, then that
  -- holds in every state that is reached from there by any sequence of calls of the seven public
  -- methods of the auth service, with any arguments and random values and whether they return or
  -- raise, and of waits.
  pub Reach-Good : {s t : World env} → Good env s → Reach s t → Good env t
  Reach-Good h here = h
  Reach-Good h (next r step) = Step-Good step (Reach-Good h r)
