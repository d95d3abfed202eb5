-- ===== src/Http/Api/Serve.antt =====
-- The endpoints in their transaction, and the exception handlers and the middleware around them.
use task_mgt_app.Base.{ℕ, String, Bool, Option, none, some, if◌then◌else◌}
use task_mgt_app.Auth.Deps.{get_current_user}
use task_mgt_app.Auth.Model.{User}
use task_mgt_app.Auth.World.{Env, World, Draws, Action}
use task_mgt_app.Db.{Db, Session, get_db}
use task_mgt_app.Errors.{Exception, Result, ok, err}
use task_mgt_app.Http.{Starlette, JsonResponse, answer}
use task_mgt_app.Http.Api.{
  Call, post_register, post_verify_email, post_login, post_refresh, post_logout,
  post_forgot_password, post_reset_password, post_project, projects, read_project, patch_project,
  remove_project, post_task, tasks, read_task, patch_task, remove_task, a_user, a_message,
  a_token_pair, a_project, some_projects, a_task, some_tasks, no_content, a_problem, a_detail,
  HttpRequest, Reply, plain, FastApi, unprocessable, AppState,
}
use task_mgt_app.Http.Auth as Auth
use task_mgt_app.Http.Projects as Projects
use task_mgt_app.Http.RequestId.{Dispatched, dispatch}
use task_mgt_app.Http.Schemas.{
  user_read, validate_register, validate_login, validate_reset, is_valid_project,
  is_valid_project_update, is_valid_task, is_valid_task_update, is_valid_search,
}
use task_mgt_app.Http.Tasks as Tasks
use task_mgt_app.Sql.{Sql}

module _ {env : Env} {A : Type 0} (reply : A → Reply) where
  -- `get_db` around a call of the auth service: a raise rolls the users back, and leaves Redis.
  unfoldable pub end_auth : AppState env → Result A × World env → Result Reply × AppState env
  end_auth st (ok a, w) = (ok (reply a), record st { world = w })
  end_auth st (err e, w) = (err e, record st { world = record w { users = st.world.users } })

  unfoldable pub on_auth : Action env A → AppState env → Result Reply × AppState env
  unfolding end_auth
  on_auth act st = end_auth st (act st.world)

  -- `get_db` around a call of the services of projects and tasks.
  unfoldable pub end_session : AppState env → Result A × Db → Result Reply × AppState env
  end_session st (ok a, s) = (ok (reply a), record st { db = s })
  end_session st (err e, s) = (err e, record st { db = s })

  unfoldable pub on_session : Session A → AppState env → Result Reply × AppState env
  unfolding end_session
  on_session act st = end_session st (get_db act st.db)

-- A body that its schema refuses.
unfoldable pub validated :
    {env : Env} {R : Type 0}
    → Option R
    → (R → AppState env → Result Reply × AppState env)
    → AppState env
    → Result Reply × AppState env
validated none k st = (ok unprocessable, st)
validated (some r) k st = k r st

unfoldable pub when_valid :
    {env : Env}
    → Bool
    → (AppState env → Result Reply × AppState env)
    → AppState env
    → Result Reply × AppState env
when_valid valid k st = if valid then k st else (ok unprocessable, st)

-- A response of an exception handler, or the exception that none of them takes.
abbrev pub problem_of : Exception → Option JsonResponse → Result Reply
problem_of e none = err e
problem_of e (some response) = ok (plain response.status_code (a_problem response))

module _ (env : Env) (fast_api : FastApi) where
  abbrev Endpoint : Type 0
  Endpoint = AppState env → Result Reply × AppState env

  unfoldable pub enter :
      (User → Endpoint) → AppState env → Result User × World env → Result Reply × AppState env
  enter k st (ok user, w) = k user (record st { world = w })
  enter k st (err e, w) = (err e, record st { world = record w { users = st.world.users } })

  -- `HTTPBearer` refuses the header, or hands the credentials to `get_current_user`.
  unfoldable pub credentialed :
      (User → Endpoint) → AppState env → Option String → Result Reply × AppState env
  unfolding enter
  credentialed k st none = (ok (plain fast_api.bearer_refused a_detail), st)
  credentialed k st (some credentials) = enter k st (get_current_user env credentials st.world)

  -- The endpoint behind `Depends(get_current_user)`, for an Authorization header.
  unfoldable pub as_user : Option String → (User → Endpoint) → Endpoint
  unfolding credentialed
  as_user authorization k st = credentialed k st (fast_api.bearer authorization)

  module _ (sql : Sql) (ilike : String → String → Bool) where
    -- The endpoints of the two routers for a user, with the values that they draw.
    unfoldable pub run_as : Draws → Call → User → Endpoint
    run_as draws (post_project payload) user st =
        when_valid (is_valid_project payload)
          (on_session (λ p. plain 201 (a_project p))
            (Projects.create_project sql user draws.id st.world.now payload))
          st
    run_as draws (projects page_params) user st =
        on_session (λ l. plain 200 (some_projects l)) (Projects.list_projects sql user page_params)
          st
    run_as draws (read_project project_id) user st =
        on_session (λ p. plain 200 (a_project p)) (Projects.get_project sql user project_id) st
    run_as draws (patch_project project_id payload) user st =
        when_valid (is_valid_project_update payload)
          (on_session (λ p. plain 200 (a_project p))
            (Projects.update_project sql user st.world.now project_id payload))
          st
    run_as draws (remove_project project_id) user st =
        on_session (λ _. plain 204 no_content)
          (Projects.delete_project sql user st.world.now project_id) st
    run_as draws (post_task project_id payload) user st =
        when_valid (is_valid_task payload)
          (on_session (λ t. plain 201 (a_task t))
            (Tasks.create_task sql ilike user draws.id st.world.now project_id payload))
          st
    run_as draws (tasks page_params project_id status priority search) user st =
        when_valid (is_valid_search search)
          (on_session (λ l. plain 200 (some_tasks l))
            (Tasks.list_tasks sql ilike user page_params project_id status priority search))
          st
    run_as draws (read_task task_id) user st =
        on_session (λ t. plain 200 (a_task t)) (Tasks.get_task sql ilike user task_id) st
    run_as draws (patch_task task_id payload) user st =
        when_valid (is_valid_task_update payload)
          (on_session (λ t. plain 200 (a_task t))
            (Tasks.update_task sql ilike user st.world.now task_id payload))
          st
    run_as draws (remove_task task_id) user st =
        on_session (λ _. plain 204 no_content)
          (Tasks.delete_task sql ilike user st.world.now task_id) st
    -- `me`: the other endpoints have no user.
    run_as draws _ user st = (ok (plain 200 (a_user (user_read user))), st)

    -- Every endpoint.
    unfoldable pub run : Draws → Option String → Call → Endpoint
    run draws authorization (post_register payload) =
        validated (validate_register fast_api.email_str payload) λ r.
          on_auth (λ p. record { status_code = 201; body = a_user (user_read p.0); mails = p.1 })
            (Auth.register env draws r.email r.password r.full_name)
    run draws authorization (post_verify_email token) =
        on_auth (λ m. plain 200 (a_message m)) (Auth.verify_email env token)
    run draws authorization (post_login payload) =
        validated (validate_login fast_api.email_str payload)
          λ r. on_auth (λ t. plain 200 (a_token_pair t)) (Auth.login env draws r.email r.password)
    run draws authorization (post_refresh refresh_token) =
        on_auth (λ t. plain 200 (a_token_pair t)) (Auth.refresh env draws refresh_token)
    run draws authorization (post_logout refresh_token) =
        on_auth (λ _. plain 204 no_content) (Auth.logout env refresh_token)
    run draws authorization (post_forgot_password email) = validated (fast_api.email_str email) λ e.
        on_auth (λ p. record { status_code = 200; body = a_message p.0; mails = p.1 })
          (Auth.forgot_password env draws e)
    run draws authorization (post_reset_password payload) = validated (validate_reset payload) λ r.
        on_auth (λ m. plain 200 (a_message m))
          (Auth.reset_password env draws r.token r.new_password)
    run draws authorization call = as_user authorization (run_as draws call)

  -- The exception handlers of `create_app`, with the context variable that they read.
  unfoldable pub handled :
      Starlette → Option String → Result Reply × AppState env → Result Reply × AppState env
  handled starlette request_id (ok reply, st) = (ok reply, st)
  handled starlette request_id (err e, st) = (problem_of e (answer starlette request_id e), st)

  -- `create_app`: the middleware around the exception handlers around the endpoints, for the id that
  -- `uuid4` draws, the measured time, and the value of the context variable before.
  unfoldable pub serve :
      Sql
      → (String → String → Bool)
      → Starlette
      → Draws
      → String
      → ℕ
      → HttpRequest
      → Option String
      → AppState env
      → Dispatched Reply (AppState env)
  unfolding handled run dispatch
  serve sql ilike starlette draws drawn duration_ms request before st =
      dispatch (λ reply. reply.status_code) request.method request.path request.x_request_id drawn
        duration_ms
        (λ request_id.
          handled starlette request_id (run sql ilike draws request.authorization request.call st))
        before
