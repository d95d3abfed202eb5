-- ===== src/Tests/Api.antt =====
-- Requests to the whole application: ann's account, and the tables of projects and tasks.
use task_mgt_app.Base.Dict.{lookup}
use task_mgt_app.Base.{◌*◌, ◌-◌, ◌≡◌, refl, true, false, none, some, [], ◌∷◌, map, arith}
use task_mgt_app.Auth.Deps.{bad_token, get_current_user, check_access}
use task_mgt_app.Auth.Fake.{get_by_email}
use task_mgt_app.Auth.Service.{credentials_valid}
use task_mgt_app.Auth.World.{wait}
use task_mgt_app.Errors.{ok, err, invalid_credentials}
use task_mgt_app.Auth.Service as Service
use task_mgt_app.Http.Auth as Auth
use task_mgt_app.Http.Schemas.{validate_login}
use task_mgt_app.Http.{make_handler, answer, mro, class_of, exception_status_map}
use task_mgt_app.Http.Api.{
  read_project, is_success, reply_of, is_protected, a_problem, plain, HttpRequest, FastApi,
  AppState,
}
use task_mgt_app.Http.Api.Correlation.{HasId, traced}
use task_mgt_app.Http.Api.Guarded.{unauthenticated}
use task_mgt_app.Http.Api.Lockout.{run_requests, login_request, locked_out}
use task_mgt_app.Http.Api.Outcome.{IsKept}
use task_mgt_app.Http.Api.Rollback.{failed_keeps}
use task_mgt_app.Http.Api.Serve.{serve, validated, on_auth}
use task_mgt_app.Http.RequestId.{request_id_of}
use task_mgt_app.Security.{verify_password, decode_token}
use task_mgt_app.Tests.Auth.{jwt_decode, env, draws, with_ann}
use task_mgt_app.Tests.Auth.Login.{guesses, wrong_password}
use task_mgt_app.Tests.Codec.{decode_forged}
use task_mgt_app.Tests.Http.{starlette}
use task_mgt_app.Tests.Sql.{sql}
use task_mgt_app.Tests.Store.{store, like}

abbrev pub fast_api : FastApi
fast_api = record { email_str = λ s. some s; bearer = λ h. h; bearer_refused = 403 }

abbrev pub state : AppState env
state = record { world = with_ann; db = store }

locked_out_example :
    let ran =
      run_requests env fast_api sql like starlette "ann@x.org" "ann@x.org" guesses "id" state in
    let later = record ran.1 { world = wait 60 ran.1.world } in
    (ran.0 ≡ map (λ _. (401, none)) guesses)
    × (ran.1.db ≡ store)
    × (run_requests env fast_api sql like starlette "ann@x.org" "ann@x.org"
          ((draws, "Secret1!") ∷ [])
          "id"
          later
        ≡ ((423, some (15 * 60 - 60)) ∷ [], later))
locked_out_example =
    locked_out env fast_api sql like starlette "ann@x.org" "ann@x.org" guesses "id" 60 draws
      "Secret1!" state refl tt (wrong_password, (wrong_password, (wrong_password, tt))) refl refl
      (omega arith)

-- A request for ann's project with a token that does not decode.
abbrev forged : HttpRequest
forged = record {
  method = "GET";
  path = "/api/v1/projects/1";
  x_request_id = some "abc";
  authorization = some "forged";
  call = read_project 1;
}

forged_refused : (get_current_user env "forged" with_ann).0 ≡ err bad_token
unfolding get_current_user check_access decode_token jwt_decode lookup
forged_refused = rw decode_forged

forged_guarded : is_protected forged.call ≡ true
unfolding is_protected
forged_guarded = refl

unauthenticated_example :
    let d = serve env fast_api sql like starlette draws "id" 3 forged none state in
    (d.result
      ≡ ok (
        plain 401 (
            a_problem (
              make_handler 401
                (some (request_id_of (some "abc") "id"))
                (invalid_credentials "Invalid or expired token."))),
        request_id_of (some "abc") "id",
      ))
    × (d.state ≡ state)
unauthenticated_example =
    unauthenticated env fast_api sql like starlette draws "id" 3 forged "forged" none state
      forged_guarded refl forged_refused

traced_example :
    let d = serve env fast_api sql like starlette draws "id" 3 forged none state in
    HasId forged 3 (request_id_of (some "abc") "id") d.result d.lines × (d.context ≡ none)
traced_example = traced env fast_api sql like starlette draws "id" 3 forged none state

guess_fails :
    is_success (
      reply_of
        (serve env fast_api sql like starlette draws "id" 3
          (login_request "ann@x.org" "guess")
          none
          state).result)
    ≡ false
unfolding serve validated validate_login on_auth Auth.login Service.login Service.reject_locked
    get_by_email credentials_valid verify_password Service.admit Service.fail_login
    Service.register_failed_attempt answer mro class_of exception_status_map make_handler
guess_fails = refl

failed_keeps_example :
    IsKept state
      (serve env fast_api sql like starlette draws "id" 3
        (login_request "ann@x.org" "guess")
        none
        state).state
failed_keeps_example =
    failed_keeps env fast_api sql like starlette draws "id" 3 (login_request "ann@x.org" "guess")
      none state guess_fails
