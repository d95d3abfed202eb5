-- ===== src/Http/Api/Correlation.antt =====
-- The id of a request, in its response and in its log line.
use task_mgt_app.Base.{ℕ, String, ◌≡◌, refl, Bool, false, Option, none, some, List, [], ◌∷◌}
use task_mgt_app.Auth.World.{Env, Draws}
use task_mgt_app.Errors.{
  AppError, Exception, Result, ok, err, app, value_error, key_error, hash_error, integrity_error,
  multiple_results_found, response_validation_error,
}
use task_mgt_app.Http.{Starlette, answer, handle, make_handler}
use task_mgt_app.Http.Api.{
  Body, a_user, a_message, a_token_pair, a_project, some_projects, a_task, some_tasks, no_content,
  a_problem, a_detail, HttpRequest, Reply, FastApi, AppState,
}
use task_mgt_app.Http.Api.Ending.{serve_lem}
use task_mgt_app.Http.Api.Outcome.{Outcome, responded, detailed, raised, is_problem, run-Outcome}
use task_mgt_app.Http.Api.Serve.{handled, problem_of, serve}
use task_mgt_app.Http.RequestId.{
  Event, request_failed, request_completed, Line, line_of, with_header, request_id_of,
}
use task_mgt_app.Sql.{Sql}

-- The error bodies of the application carry an id.
abbrev pub HasBodyId : String → Body → Type 0
HasBodyId request_id (a_problem response) = response.request_id ≡ some request_id
HasBodyId request_id _ = Unit

-- The line that a request with this id logs, with what it tells of its end.
abbrev pub line : HttpRequest → String → Event → Line
line request request_id event = record {
  event = event;
  method = request.method;
  path = request.path;
  request_id = some request_id;
}

-- A response has the id in its header and in an error body, and its line; an exception that leaves
-- the application has its line only.
abbrev pub HasId : HttpRequest → ℕ → String → Result (Reply × String) → List Line → Type 0
HasId request duration_ms request_id (ok (reply, header)) lines =
    (header ≡ request_id)
    × HasBodyId request_id reply.body
    × (lines ≡ line request request_id (request_completed reply.status_code duration_ms) ∷ [])
HasId request duration_ms request_id (err e) lines =
    lines ≡ line request request_id (request_failed e) ∷ []

abbrev HasReplyId : String → Result Reply → Type 0
HasReplyId request_id (ok reply) = HasBodyId request_id reply.body
HasReplyId request_id (err e) = Unit

own_body : (request_id : String) (b : Body) → is_problem b ≡ false → HasBodyId request_id b
own_body request_id (a_user _) h = tt
own_body request_id (a_message _) h = tt
own_body request_id (a_token_pair _) h = tt
own_body request_id (a_project _) h = tt
own_body request_id (some_projects _) h = tt
own_body request_id (a_task _) h = tt
own_body request_id (some_tasks _) h = tt
own_body request_id no_content h = tt
own_body request_id (a_problem _) h = cc
own_body request_id a_detail h = tt

with_header-HasId :
    (request : HttpRequest) (duration_ms : ℕ) (request_id : String) (r : Result Reply)
    → HasReplyId request_id r
    → HasId request duration_ms request_id (with_header request_id r) (
        line_of (λ reply. reply.status_code) request.method request.path request_id duration_ms r
        ∷ [])
with_header-HasId request duration_ms request_id (ok reply) h = (refl, h, refl)
with_header-HasId request duration_ms request_id (err e) h = refl

module _ (env : Env) (fast_api : FastApi) (sql : Sql) (ilike : String → String → Bool)
    (starlette : Starlette) where
  handle-HasId :
      (request_id : String) (exc : AppError) (e : Exception) (status : Option ℕ)
      → HasReplyId request_id (problem_of e (handle (some request_id) exc status))
  unfolding make_handler
  handle-HasId request_id exc e none = tt
  handle-HasId request_id exc e (some http_status) = refl

  answer-HasId :
      (request_id : String) (e : Exception)
      → HasReplyId request_id (problem_of e (answer starlette (some request_id) e))
  unfolding answer
  answer-HasId request_id (app exc) = handle-HasId request_id exc (app exc) _
  answer-HasId request_id value_error = tt
  answer-HasId request_id key_error = tt
  answer-HasId request_id hash_error = tt
  answer-HasId request_id integrity_error = tt
  answer-HasId request_id multiple_results_found = tt
  answer-HasId request_id response_validation_error = tt

  handled-HasId :
      (st : AppState env) (request_id : String) (r : Result Reply × AppState env)
      → Outcome st r
      → HasReplyId request_id (handled env fast_api starlette (some request_id) r).0
  unfolding handled
  handled-HasId st request_id r (responded reply st' success own) =
      own_body request_id reply.body own
  handled-HasId st request_id r (detailed reply own) = own_body request_id reply.body own
  handled-HasId st request_id r (raised e st' kept) = answer-HasId request_id e

  -- A request to one of the modelled endpoints ends in a response or in an exception. A response -
  -- of the endpoint, of FastAPI's checks or of an exception handler - has as X-Request-ID header
  -- the id of the request: the inbound header, or the drawn id if there is none or an empty one; if
  -- its body comes from an exception handler of the application, that has the same id. The
  -- middleware then logs exactly one line, with that id and the status of the response. An
  -- exception without a handler leaves the middleware, and exactly one line is logged, with that id
  -- and the exception; the response that Starlette makes then, outside the middleware, is not
  -- modelled. The context variable has its former value behind both.
  pub traced :
      (draws : Draws) (drawn : String) (duration_ms : ℕ) (request : HttpRequest)
      (before : Option String) (st : AppState env)
      → let request_id = request_id_of request.x_request_id drawn in
        let d = serve env fast_api sql ilike starlette draws drawn duration_ms request before st in
        HasId request duration_ms request_id d.result d.lines × (d.context ≡ before)
  traced draws drawn duration_ms request before st =
      let request_id = request_id_of request.x_request_id drawn in
      let (result, state, context, lines) =
        serve_lem env fast_api sql ilike starlette draws drawn duration_ms request before st in
      (
        rw (result, lines)
            (with_header-HasId request duration_ms request_id _ (
              handled-HasId st request_id _
                (run-Outcome env fast_api sql ilike draws request.authorization request.call st))),
        context,
      )
