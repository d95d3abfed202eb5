-- ===== src/Http/Api/Honoured.antt =====
-- Requests for projects and tasks over HTTP, and the promises of the catalog.
use task_mgt_app.Base.{ℕ, String, ◌≡◌, refl, ◌∙◌, Bool, true, Option, none, some, subst}
use task_mgt_app.Auth.Deps.{get_current_user}
use task_mgt_app.Auth.Model.{User}
use task_mgt_app.Auth.World.{Env, World, Draws}
use task_mgt_app.Catalog.{Request, promise}
use task_mgt_app.Catalog.Refinement.{serve-Simulates}
use task_mgt_app.Catalog.Serve as Services
use task_mgt_app.Catalog.View.{Represents, view, Represents-view}
use task_mgt_app.Consistency.Transactions.{IsConsistent}
use task_mgt_app.Entity.{Uuid, Instant}
use task_mgt_app.Errors.{
  AppError, Result, ok, err, app, value_error, key_error, hash_error, integrity_error,
  multiple_results_found, response_validation_error,
}
use task_mgt_app.Http.{Starlette, JsonResponse, answer}
use task_mgt_app.Http.Api.{
  Call, post_register, post_verify_email, post_login, post_refresh, post_logout,
  post_forgot_password, post_reset_password, is_protected, HttpRequest, Reply, FastApi, AppState,
}
use task_mgt_app.Http.Api.Contract.{request_of, is_valid_call, success_of, plainly, reply_for}
use task_mgt_app.Http.Api.Guarded.{run_protected}
use task_mgt_app.Http.Api.Ending.{serve_lem}
use task_mgt_app.Http.Api.Outcome.{get_current_user_kept}
use task_mgt_app.Http.Api.Served.{IsServed, run_as-IsServed}
use task_mgt_app.Http.Api.Serve.{problem_of, enter, credentialed, as_user, run_as, handled, serve}
use task_mgt_app.Http.RequestId.{request_id_of, with_header}
use task_mgt_app.Sql.{Sql}

-- What a request with this id ends with: the response of the endpoint, or of the handler of the
-- exception, or the exception itself if it has none.
abbrev pub responded : Starlette → String → Result Reply → Result (Reply × String)
responded starlette request_id (ok reply) = ok (reply, request_id)
responded starlette request_id (err e) =
    with_header request_id (problem_of e (answer starlette (some request_id) e))

plainly-handled :
    (request_id : String) (exc : AppError) (x : Option JsonResponse)
    → plainly (with_header request_id (problem_of (app exc) x))
      ≡ with_header request_id (problem_of (app exc) x)
plainly-handled request_id exc none = refl
plainly-handled request_id exc (some response) = refl

plainly-responded :
    (starlette : Starlette) (request_id : String) (r : Result Reply)
    → plainly (responded starlette request_id r) ≡ responded starlette request_id (plainly r)
unfolding answer
plainly-responded starlette request_id (ok reply) = refl
plainly-responded starlette request_id (err (app exc)) = plainly-handled request_id exc _
plainly-responded starlette request_id (err value_error) = refl
plainly-responded starlette request_id (err key_error) = refl
plainly-responded starlette request_id (err hash_error) = refl
plainly-responded starlette request_id (err integrity_error) = refl
plainly-responded starlette request_id (err multiple_results_found) = refl
plainly-responded starlette request_id (err response_validation_error) = refl

request_of_protected :
    (draws : Draws) (now : Instant) (o : Uuid) (call : Call) (r : Request)
    → request_of draws now o call ≡ some r
    → is_protected call ≡ true
unfolding request_of is_protected
request_of_protected draws now o (post_register _) r h = cc
request_of_protected draws now o (post_verify_email _) r h = cc
request_of_protected draws now o (post_login _) r h = cc
request_of_protected draws now o (post_refresh _) r h = cc
request_of_protected draws now o (post_logout _) r h = cc
request_of_protected draws now o (post_forgot_password _) r h = cc
request_of_protected draws now o (post_reset_password _) r h = cc
request_of_protected draws now o _ r h = refl

module _ (env : Env) (fast_api : FastApi) (sql : Sql) (ilike : String → String → Bool)
    (starlette : Starlette) where
  enter_admitted :
      (k : User → AppState env → Result Reply × AppState env) (st : AppState env) (user : User)
      (r : Result User × World env)
      → r.0 ≡ ok user
      → r.1 ≡ st.world
      → enter env fast_api k st r ≡ k user st
  unfolding enter
  enter_admitted k st user (ok u, w) h same = rw same (cc)
  enter_admitted k st user (err e, w) h same = cc

  as_user_admitted :
      (authorization : Option String) (credentials : String)
      (k : User → AppState env → Result Reply × AppState env) (st : AppState env) (user : User)
      → fast_api.bearer authorization ≡ some credentials
      → (get_current_user env credentials st.world).0 ≡ ok user
      → as_user env fast_api authorization k st ≡ k user st
  unfolding as_user credentialed
  as_user_admitted authorization credentials k st user given admitted = rw given (
      enter_admitted k st user (get_current_user env credentials st.world) admitted
        (get_current_user_kept env credentials st.world))

  handled_lem :
      (request_id : String) (r : Result Reply) (st : AppState env)
      → let h = handled env fast_api starlette (some request_id) (r, st) in
        (with_header request_id h.0 ≡ responded starlette request_id r) × (h.1 ≡ st)
  unfolding handled
  handled_lem request_id (ok reply) st = (refl, refl)
  handled_lem request_id (err e) st = (refl, refl)

  -- Let the tables be consistent, and let a request to one of the endpoints that create, read,
  -- change or delete a project or a task carry a bearer token for which `get_current_user` finds a
  -- user, and a body that its schema accepts. The response is the one to the answer that the
  -- catalog of the tables promises this user: 200, 201 or 204 with the fields of the promised
  -- project or task, or what the exception handlers make of the promised refusal, with the id of
  -- the request; a promised refusal of an empty NOT NULL column may come as ResponseValidationError
  -- in place of IntegrityError, and neither has a handler. Behind it the tables show the promised
  -- catalog, and accounts and Redis are as they were.
  pub honoured :
      (draws : Draws) (drawn : String) (duration_ms : ℕ) (request : HttpRequest)
      (credentials : String) (before : Option String) (st : AppState env) (user : User)
      (r : Request)
      → IsConsistent st.db
      → fast_api.bearer request.authorization ≡ some credentials
      → (get_current_user env credentials st.world).0 ≡ ok user
      → request_of draws st.world.now user.id request.call ≡ some r
      → is_valid_call request.call ≡ true
      → let request_id = request_id_of request.x_request_id drawn in
        let d = serve env fast_api sql ilike starlette draws drawn duration_ms request before st in
        let (promised, catalog) = promise (view st.db) r in
        (plainly d.result
          ≡ responded starlette request_id (reply_for (success_of request.call) promised))
        × Represents d.state.db catalog
        × (d.state.world ≡ st.world)
  honoured draws drawn duration_ms request credentials before st user r w given admitted asked
        valid =
      let (result, state, context, ids) =
        serve_lem env fast_api sql ilike starlette draws drawn duration_ms request before st in
      let guarded = request_of_protected draws st.world.now user.id request.call r asked in
      let step = serve-Simulates sql ilike r st.db (view st.db) w (Represents-view st.db) in
      let served =
        subst
          (IsServed env fast_api sql ilike (success_of request.call) st
            (run_as env fast_api sql ilike draws request.call user st))
          asked (run_as-IsServed env fast_api sql ilike draws request.call user st w valid) in
      let ran =
        run_protected env fast_api sql ilike starlette draws request.authorization request.call st
          guarded
        ∙ as_user_admitted request.authorization credentials
            (run_as env fast_api sql ilike draws request.call) st user given admitted in
      let left = Services.serve sql ilike r st.db in
      let settled =
        handled_lem (request_id_of request.x_request_id drawn)
          (run_as env fast_api sql ilike draws request.call user st).0
          (run_as env fast_api sql ilike draws request.call user st).1 in
      rw
        (
          result,
          state,
          ran,
          settled.0,
          settled.1,
          plainly-responded starlette,
          served.0,
          served.1,
          step.same,
        )
        (refl, step.represents, refl)
