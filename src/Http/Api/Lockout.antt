-- ===== src/Http/Api/Lockout.antt =====
-- The lockout over HTTP: what a client sees that tries passwords.
use task_mgt_app.Base.{
  ℕ, ◌+◌, ◌≤◌, ◌-◌, ◌*◌, ◌<◌, String, ◌≡◌, refl, Bool, Option, none, some, List, [], ◌∷◌, map,
  length, arith,
}
use task_mgt_app.Auth.Lockout.{
  run_none, run_step, locked_until, run_reached, run_logins, AllRejected,
}
use task_mgt_app.Auth.Login.{IsOpen, login_refused}
use task_mgt_app.Auth.Keys.{login_lock_key, login_attempts_key}
use task_mgt_app.Auth.Attempts.{attempted, attempt_under}
use task_mgt_app.Auth.Service as Service
use task_mgt_app.Auth.Service.{bad_credentials}
use task_mgt_app.Auth.World.{Env, World, Draws, wait}
use task_mgt_app.Errors.{AppError, Result, ok, err, app, invalid_credentials}
use task_mgt_app.Http.{Starlette, make_handler, retry_after_of}
use task_mgt_app.Http.Api.{post_login, a_problem, HttpRequest, Reply, FastApi, AppState}
use task_mgt_app.Http.Api.Ending.{ended_app, serve_lem}
use task_mgt_app.Http.Api.Serve.{end_auth, on_auth, validated, run, serve}
use task_mgt_app.Http.Auth as Auth
use task_mgt_app.Http.Schemas.{validate_login}
use task_mgt_app.Http.Statuses.{meant_status}
use task_mgt_app.Sql.{Sql}

-- What the client sees: the status, and the Retry-After header.
abbrev pub seen : Result (Reply × String) → ℕ × Option ℕ
seen (ok (reply, _)) =
    (reply.status_code, elim reply.body [ a_problem p ↦ p.retry_after | _ ↦ none ])
seen (err e) = (500, none)

abbrev pub login_request : String → String → HttpRequest
login_request email password = record {
  method = "POST";
  path = "/api/v1/auth/login";
  x_request_id = none;
  authorization = none;
  call = post_login (record { email = email; password = password });
}

module _ (env : Env) (fast_api : FastApi) (sql : Sql) (ilike : String → String → Bool)
    (starlette : Starlette) where
  -- A login whose service call raises a domain exception, on an address that `EmailStr` accepts.
  service_raised :
      (draws : Draws) (address password : String) (exc : AppError) (w w' : World env)
      → Service.login env draws address password w ≡ (err (app exc), w')
      → Auth.login env draws address password w ≡ (err (app exc), w')
  unfolding Auth.login
  service_raised draws address password exc w w' raised = ground arith

  login_raised :
      (draws : Draws) (email address password : String) (exc : AppError) (st : AppState env)
      (w : World env)
      → fast_api.email_str email ≡ some address
      → Service.login env draws address password st.world ≡ (err (app exc), w)
      → run env fast_api sql ilike draws none (login_request email password).call st
        ≡ (err (app exc), record st { world = record w { users = st.world.users } })
  unfolding run validated validate_login on_auth end_auth
  login_raised draws email address password exc st w valid raised =
      rw (valid, service_raised draws address password exc st.world w raised)

  module _ (email address : String) where
    -- The requests of one client, each with the id that is drawn for it, and what it sees.
    pub run_requests :
        List (Draws × String) → String → AppState env → List (ℕ × Option ℕ) × AppState env
    run_requests [] drawn st = ([], st)
    run_requests ((draws, password) ∷ l) drawn st =
        let d =
          serve env fast_api sql ilike starlette draws drawn 0 (login_request email password) none
            st in
        let (rs, st') = run_requests l drawn d.state in (seen d.result ∷ rs, st')

    requests_none : (drawn : String) (st : AppState env) → run_requests [] drawn st ≡ ([], st)
    unfolding run_requests
    requests_none drawn st = refl

    requests_step :
        (draws : Draws) (password : String) (l : List (Draws × String)) (drawn : String)
        (st st' : AppState env) (status : ℕ) (retry_after : Option ℕ)
        → let d =
            serve env fast_api sql ilike starlette draws drawn 0
              (login_request email password)
              none
              st in
          seen d.result ≡ (status, retry_after)
          → d.state ≡ st'
          → run_requests ((draws, password) ∷ l) drawn st
            ≡ ((status, retry_after) ∷ (run_requests l drawn st').0, (run_requests l drawn st').1)
    unfolding run_requests
    requests_step draws password l drawn st st' status retry_after h k = rw (h, k)

    -- One refused login.
    refused_seen :
        (draws : Draws) (password drawn : String) (exc : AppError) (http_status : ℕ)
        (st : AppState env) (w : World env)
        → fast_api.email_str email ≡ some address
        → Service.login env draws address password st.world ≡ (err (app exc), w)
        → meant_status exc ≡ some http_status
        → let d =
            serve env fast_api sql ilike starlette draws drawn 0
              (login_request email password)
              none
              st in
          (seen d.result ≡ (http_status, retry_after_of exc))
          × (d.state ≡ record st { world = record w { users = st.world.users } })
    unfolding make_handler
    refused_seen draws password drawn exc http_status st w valid raised status =
        let request = login_request email password in
        let (result, state, context, ids) =
          serve_lem env fast_api sql ilike starlette draws drawn 0 request none st in
        let ran = login_raised draws email address password exc st w valid raised in
        rw
          (
            result,
            state,
            ended_app env fast_api sql ilike starlette draws drawn request exc st _ ran,
            status,
          )
          (refl, refl)

    run_requests_lem :
        (l : List (Draws × String)) (drawn : String) (st : AppState env)
        → fast_api.email_str email ≡ some address
        → IsOpen (env.redis.ttl (login_lock_key (env.libs.lower address)) st.world.redis)
        → AllRejected env address l st.world.users
        → env.redis.count (login_attempts_key (env.libs.lower address)) st.world.redis + length l
          ≤ env.settings.login_max_attempts
        → run_requests l drawn st
          ≡ (map (λ _. (401, none)) l, record st { world = (run_logins env address l st.world).1 })
    unfolding retry_after_of
    run_requests_lem [] drawn st valid o r h =
        rw (run_none env address st.world, requests_none drawn st)
    run_requests_lem ((draws, password) ∷ []) drawn st valid o (r, rs) h =
        let refused = login_refused env draws address password st.world o r in
        let (answered, after) =
          refused_seen draws password drawn (invalid_credentials "Invalid email or password.") 401
            st _ valid refused refl in
        rw (
          run_step env address draws password [] st.world o r,
          run_none env address _,
          requests_step draws password [] drawn st _ _ _ answered after,
          requests_none drawn _,
        )
    run_requests_lem ((draws, password) ∷ x ∷ l) drawn st valid o (r, rs) h =
        let refused = login_refused env draws address password st.world o r in
        let (answered, after) =
          refused_seen draws password drawn (invalid_credentials "Invalid email or password.") 401
            st _ valid refused refl in
        let (counted, same, fresh) =
          attempt_under env (env.libs.lower address) st.world (omega arith) in
        let rest =
          run_requests_lem (x ∷ l) drawn
            (record st {
              world = record st.world { redis = attempted env (env.libs.lower address) st.world };
            })
            valid (rw (same (env.libs.lower address)) o) rs (omega arith) in
        rw (
          run_step env address draws password (x ∷ l) st.world o r,
          requests_step draws password (x ∷ l) drawn st _ _ _ answered after,
          rest,
        )

    -- Let an address be unlocked, with no failed attempt counted, and let a client send as many
    -- POST requests to /auth/login for it as LOGIN_MAX_ATTEMPTS, each with no account, a wrong
    -- password or a disabled account. Every one of them is answered with 401 and no Retry-After
    -- header, and the tables of projects and tasks stay as they were. For the whole lockout time
    -- after the last of them a login request for the address, whatever its password, is answered
    -- with 423 and the seconds of the lockout that are left as Retry-After, and changes nothing. So
    -- the count in Redis outlives the rollbacks of the transactions in which the attempts failed.
    pub locked_out :
        (l : List (Draws × String)) (drawn : String) (t : ℕ) (draws : Draws) (password : String)
        (st : AppState env)
        → fast_api.email_str email ≡ some address
        → IsOpen (env.redis.ttl (login_lock_key (env.libs.lower address)) st.world.redis)
        → AllRejected env address l st.world.users
        → env.redis.count (login_attempts_key (env.libs.lower address)) st.world.redis ≡ 0
        → length l ≡ env.settings.login_max_attempts
        → t < env.settings.login_lockout_minutes * 60
        → let ran = run_requests l drawn st in
          let later = record ran.1 { world = wait t ran.1.world } in
          (ran.0 ≡ map (λ _. (401, none)) l)
          × (ran.1.db ≡ st.db)
          × (run_requests ((draws, password) ∷ []) drawn later
              ≡ ((423, some (env.settings.login_lockout_minutes * 60 - t)) ∷ [], later))
    unfolding retry_after_of
    locked_out l drawn t draws password st valid o r none_failed limit h =
        let (started_again, set_lock, users, alike) =
          run_reached env address l st.world o r (rw none_failed env.positive.attempts)
            (omega arith) in
        let ran = run_requests_lem l drawn st valid o r (omega arith) in
        let locked =
          locked_until env address (run_logins env address l st.world).1 t draws password set_lock
            h in
        let (answered, after) =
          refused_seen draws password drawn _ 423
            (record st { world = wait t (run_logins env address l st.world).1 }) _ valid locked
            refl in
        rw ran (
          refl,
          refl,
          rw (requests_step draws password [] drawn _ _ _ _ answered after, requests_none drawn _),
        )
