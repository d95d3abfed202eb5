-- ===== src/Http/Api/Rollback.antt =====
-- A request that fails leaves the database as it was.
use task_mgt_app.Base.{ℕ, String, ◌≡◌, refl, ◌∙◌, Bool, false, Option, some, ap, sym}
use task_mgt_app.Auth.World.{Env, Draws}
use task_mgt_app.Errors.{Result, ok, err}
use task_mgt_app.Http.{Starlette}
use task_mgt_app.Http.Api.{HttpRequest, Reply, FastApi, AppState, is_success, reply_of}
use task_mgt_app.Http.Api.Ending.{finished, serve_lem}
use task_mgt_app.Http.Api.Outcome.{IsKept, Outcome, responded, detailed, raised, run-Outcome}
use task_mgt_app.Http.Api.Serve.{run, handled, serve}
use task_mgt_app.Http.RequestId.{with_header, request_id_of}
use task_mgt_app.Sql.{Sql}

module _ (env : Env) (fast_api : FastApi) (sql : Sql) (ilike : String → String → Bool)
    (starlette : Starlette) where
  handled-IsKept :
      (st : AppState env) (request_id : Option String) (r : Result Reply × AppState env)
      → Outcome st r
      → is_success (handled env fast_api starlette request_id r).0 ≡ false
      → IsKept st (handled env fast_api starlette request_id r).1
  unfolding handled
  handled-IsKept st request_id r (responded reply st' success own) h = absurd (cc (success, h))
  handled-IsKept st request_id r (detailed reply own) h = record { db = refl; users = refl }
  handled-IsKept st request_id r (raised e st' kept) h = kept

  reply_of-with_header :
      (request_id : String) (r : Result Reply) → reply_of (with_header request_id r) ≡ r
  reply_of-with_header request_id (ok reply) = refl
  reply_of-with_header request_id (err e) = refl

  -- Any request to any of the endpoints of accounts, projects and tasks, with any headers and body,
  -- whose response has not a status from 200 to 299, or that ends in an exception that no handler
  -- takes, leaves the users and the tables of projects and tasks as they were. What it wrote into
  -- Redis may stay.
  pub failed_keeps :
      (draws : Draws) (drawn : String) (duration_ms : ℕ) (request : HttpRequest)
      (before : Option String) (st : AppState env)
      → let d = serve env fast_api sql ilike starlette draws drawn duration_ms request before st in
        is_success (reply_of d.result) ≡ false → IsKept st d.state
  failed_keeps draws drawn duration_ms request before st h =
      let call = run env fast_api sql ilike draws request.authorization request.call st in
      let request_id = request_id_of request.x_request_id drawn in
      let (result, state, context, ids) =
        serve_lem env fast_api sql ilike starlette draws drawn duration_ms request before st in
      let failed =
        ap is_success (
          sym (
            reply_of-with_header request_id
              (finished env fast_api sql ilike starlette draws drawn request st).0))
        ∙ ap (λ r. is_success (reply_of r)) (sym result)
        ∙ h in
      rw state (
        handled-IsKept st (some request_id) call
          (run-Outcome env fast_api sql ilike draws request.authorization request.call st) failed)
