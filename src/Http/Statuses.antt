-- ===== src/Http/Statuses.antt =====
-- Which status every exception of the services is answered with.
use task_mgt_app.Base.{ℕ, String, ◌≡◌, refl, Option, none, some, List, [], ◌∷◌, ap, ◌∙◌}
use task_mgt_app.Errors.{
  AppError, app_error, not_found, user_not_found, project_not_found, task_not_found, conflict,
  email_already_registered, invalid_credentials, account_locked, email_not_verified, invalid_token,
  forbidden, app,
}
use task_mgt_app.Http.{
  Class, Starlette, class_of, mro, exception_status_map, answer, handle, registered, first_of,
}

-- The statuses by the meaning of an exception: what is not there, what is in conflict, who is not
-- known, what is malformed, what is not allowed, what is locked.
abbrev pub meant_status : AppError → Option ℕ
meant_status (app_error _) = none
meant_status (not_found _) = some 404
meant_status (user_not_found _) = some 404
meant_status (project_not_found _) = some 404
meant_status (task_not_found _) = some 404
meant_status (conflict _) = some 409
meant_status (email_already_registered _) = some 409
meant_status (invalid_credentials _) = some 401
meant_status (account_locked _ _) = some 423
meant_status (email_not_verified _) = some 403
meant_status (invalid_token _) = some 400
meant_status (forbidden _) = some 403

-- The first class with a handler.
abbrev first_registered : List (Class × ℕ) → List Class → Option ℕ
first_registered handlers [] = none
first_registered handlers (c ∷ cs) = first_of (registered c handlers) (first_registered handlers cs)

lookup_handler_lem :
    (starlette : Starlette) (handlers : List (Class × ℕ)) (cs : List Class)
    → starlette.lookup_handler handlers cs ≡ first_registered handlers cs
lookup_handler_lem starlette handlers [] = starlette.lookup_handler_none handlers
lookup_handler_lem starlette handlers (c ∷ cs) =
    starlette.lookup_handler_cons handlers c cs
    ∙ ap (first_of (registered c handlers)) (lookup_handler_lem starlette handlers cs)

meant_status_lem :
    (exc : AppError) → first_registered exception_status_map (mro (class_of exc)) ≡ meant_status exc
unfolding class_of mro exception_status_map
meant_status_lem (app_error m) = refl
meant_status_lem (not_found m) = refl
meant_status_lem (user_not_found m) = refl
meant_status_lem (project_not_found m) = refl
meant_status_lem (task_not_found m) = refl
meant_status_lem (conflict m) = refl
meant_status_lem (email_already_registered m) = refl
meant_status_lem (invalid_credentials m) = refl
meant_status_lem (account_locked m n) = refl
meant_status_lem (email_not_verified m) = refl
meant_status_lem (invalid_token m) = refl
meant_status_lem (forbidden m) = refl

-- Every domain exception is answered by the handler of the status that is meant for it: 404 for
-- what is not found, 409 for a conflict, 401 for invalid credentials, 423 for a locked account, 403
-- for an unverified address and a forbidden action, 400 for an invalid token. Only a plain AppError
-- has no handler.
pub answered :
    (starlette : Starlette) (request_id : Option String) (exc : AppError)
    → answer starlette request_id (app exc) ≡ handle request_id exc (meant_status exc)
unfolding answer
answered starlette request_id exc =
    ap (handle request_id exc) (
      lookup_handler_lem starlette exception_status_map (mro (class_of exc)) ∙ meant_status_lem exc)
