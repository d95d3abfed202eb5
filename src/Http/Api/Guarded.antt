-- ===== src/Http/Api/Guarded.antt =====
-- A request whose access token `get_current_user` refuses.
use task_mgt_app.Base.{ℕ, String, ◌≡◌, refl, ◌∙◌, Bool, true, Option, some}
use task_mgt_app.Auth.Deps.{bad_token, get_current_user}
use task_mgt_app.Auth.Model.{User}
use task_mgt_app.Auth.World.{Env, World, Draws}
use task_mgt_app.Errors.{Result, ok, err, invalid_credentials}
use task_mgt_app.Http.{Starlette, make_handler}
use task_mgt_app.Http.Api.{
  Call, post_register, post_verify_email, post_login, post_refresh, post_logout,
  post_forgot_password, post_reset_password, me, post_project, projects, read_project,
  patch_project, remove_project, post_task, tasks, read_task, patch_task, remove_task, is_protected,
  a_problem, HttpRequest, Reply, plain, FastApi, AppState,
}
use task_mgt_app.Http.Api.Ending.{ended_app, serve_lem}
use task_mgt_app.Http.Api.Outcome.{get_current_user_kept}
use task_mgt_app.Http.Api.Serve.{enter, credentialed, as_user, run_as, run, serve}
use task_mgt_app.Http.RequestId.{request_id_of}
use task_mgt_app.Sql.{Sql}

module _ (env : Env) (fast_api : FastApi) (sql : Sql) (ilike : String → String → Bool)
    (starlette : Starlette) where
  enter_refused :
      (k : User → AppState env → Result Reply × AppState env) (st : AppState env)
      (r : Result User × World env)
      → r.0 ≡ err bad_token
      → r.1 ≡ st.world
      → enter env fast_api k st r ≡ (err bad_token, st)
  unfolding enter
  enter_refused k st (ok user, w) h same = cc
  enter_refused k st (err e, w) h same = rw same (cc)

  as_user_refused :
      (authorization : Option String) (credentials : String)
      (k : User → AppState env → Result Reply × AppState env) (st : AppState env)
      → fast_api.bearer authorization ≡ some credentials
      → (get_current_user env credentials st.world).0 ≡ err bad_token
      → as_user env fast_api authorization k st ≡ (err bad_token, st)
  unfolding as_user credentialed
  as_user_refused authorization credentials k st given refused = rw given (
      enter_refused k st (get_current_user env credentials st.world) refused
        (get_current_user_kept env credentials st.world))

  pub run_protected :
      (draws : Draws) (authorization : Option String) (call : Call) (st : AppState env)
      → is_protected call ≡ true
      → run env fast_api sql ilike draws authorization call st
        ≡ as_user env fast_api authorization (run_as env fast_api sql ilike draws call) st
  unfolding run is_protected
  run_protected draws authorization (post_register _) st h = cc
  run_protected draws authorization (post_verify_email _) st h = cc
  run_protected draws authorization (post_login _) st h = cc
  run_protected draws authorization (post_refresh _) st h = cc
  run_protected draws authorization (post_logout _) st h = cc
  run_protected draws authorization (post_forgot_password _) st h = cc
  run_protected draws authorization (post_reset_password _) st h = cc
  run_protected draws authorization me st h = refl
  run_protected draws authorization (post_project _) st h = refl
  run_protected draws authorization (projects _) st h = refl
  run_protected draws authorization (read_project _) st h = refl
  run_protected draws authorization (patch_project _ _) st h = refl
  run_protected draws authorization (remove_project _) st h = refl
  run_protected draws authorization (post_task _ _) st h = refl
  run_protected draws authorization (tasks _ _ _ _ _) st h = refl
  run_protected draws authorization (read_task _) st h = refl
  run_protected draws authorization (patch_task _ _) st h = refl
  run_protected draws authorization (remove_task _) st h = refl

  -- A request to one of the endpoints of projects and tasks, or to /auth/me, whose bearer token
  -- `get_current_user` refuses as invalid or expired, is answered with 401, "Invalid or expired
  -- token." and the id of the request, whatever its path and body are, and changes nothing.
  pub unauthenticated :
      (draws : Draws) (drawn : String) (duration_ms : ℕ) (request : HttpRequest)
      (credentials : String) (before : Option String) (st : AppState env)
      → is_protected request.call ≡ true
      → fast_api.bearer request.authorization ≡ some credentials
      → (get_current_user env credentials st.world).0 ≡ err bad_token
      → let request_id = request_id_of request.x_request_id drawn in
        let d = serve env fast_api sql ilike starlette draws drawn duration_ms request before st in
        (d.result
          ≡ ok (
            plain 401 (
                a_problem (
                  make_handler 401
                    (some request_id)
                    (invalid_credentials "Invalid or expired token."))),
            request_id,
          ))
        × (d.state ≡ st)
  unfolding make_handler
  unauthenticated draws drawn duration_ms request credentials before st guarded given refused =
      let (result, state, context, ids) =
        serve_lem env fast_api sql ilike starlette draws drawn duration_ms request before st in
      let ran =
        run_protected draws request.authorization request.call st guarded
        ∙ as_user_refused request.authorization credentials
            (run_as env fast_api sql ilike draws request.call) st given refused in
      rw (result, state, ended_app env fast_api sql ilike starlette draws drawn request _ st st ran)
        (refl, refl)
