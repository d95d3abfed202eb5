-- ===== src/Http/Api/Ending.antt =====
-- What the exception handlers and the middleware make of the end of an endpoint.
use task_mgt_app.Base.{ℕ, [], ◌∷◌, String, ◌≡◌, Bool, Option, some}
use task_mgt_app.Auth.World.{Env, Draws}
use task_mgt_app.Errors.{AppError, app, Result, err}
use task_mgt_app.Http.Api.{HttpRequest, Reply, FastApi, AppState}
use task_mgt_app.Http.Api.Serve.{run, handled, problem_of, serve}
use task_mgt_app.Http.{Starlette, handle}
use task_mgt_app.Http.Statuses.{answered, meant_status}
use task_mgt_app.Http.RequestId.{dispatch_lem, line_of, with_header, request_id_of}
use task_mgt_app.Sql.{Sql}

module _ (env : Env) (fast_api : FastApi) (sql : Sql) (ilike : String → String → Bool) where
  -- What the exception handlers make of the end of the endpoint.
  abbrev pub finished :
      Starlette → Draws → String → HttpRequest → AppState env → Result Reply × AppState env
  finished starlette draws drawn request st =
      handled env fast_api starlette (some (request_id_of request.x_request_id drawn))
        (run env fast_api sql ilike draws request.authorization request.call st)

  -- An endpoint that raises a domain exception.
  pub ended_app :
      (starlette : Starlette) (draws : Draws) (drawn : String) (request : HttpRequest)
      (exc : AppError) (st st' : AppState env)
      → run env fast_api sql ilike draws request.authorization request.call st
        ≡ (err (app exc), st')
      → finished starlette draws drawn request st ≡ (
        problem_of
            (app exc)
            (handle (some (request_id_of request.x_request_id drawn)) exc (meant_status exc)),
        st',
      )
  unfolding handled
  ended_app starlette draws drawn request exc st st' h = rw h (rw answered)

  pub serve_lem :
      (starlette : Starlette) (draws : Draws) (drawn : String) (duration_ms : ℕ)
      (request : HttpRequest) (before : Option String) (st : AppState env)
      → let request_id = request_id_of request.x_request_id drawn in
        let d = serve env fast_api sql ilike starlette draws drawn duration_ms request before st in
        (d.result ≡ with_header request_id (finished starlette draws drawn request st).0)
        × (d.state ≡ (finished starlette draws drawn request st).1)
        × (d.context ≡ before)
        × (d.lines
            ≡ line_of
                (λ reply. reply.status_code)
                request.method
                request.path
                request_id
                duration_ms
                (finished starlette draws drawn request st).0
              ∷ [])
  unfolding serve
  serve_lem starlette draws drawn duration_ms request before st =
      dispatch_lem (λ reply. reply.status_code) request.method request.path request.x_request_id
        drawn duration_ms
        (λ request_id.
          handled env fast_api starlette request_id
            (run env fast_api sql ilike draws request.authorization request.call st))
        before
