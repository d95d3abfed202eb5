-- ===== src/Http.antt =====
-- The exception handlers of app/main.py. How Starlette finds the handler of an exception is a
-- parameter.
pub mod Statuses
pub mod Auth
pub mod Passwords
pub mod Health
pub mod RequestId
pub mod Schemas
pub mod Api
pub mod Main
pub mod Projects
pub mod Tasks
pub mod NullName
use task_mgt_app.Base.{
  ℕ, String, ◌≡◌, Bool, true, false, ◌||◌, Option, none, some, List, [], ◌∷◌, ◌==◌, if◌then◌else◌,
  map,
}
use task_mgt_app.Errors.{
  AppError, app_error, not_found, user_not_found, project_not_found, task_not_found, conflict,
  email_already_registered, invalid_credentials, account_locked, email_not_verified, invalid_token,
  forbidden, Exception, app,
}

-- The classes of app/common/exceptions.py.
pub data Class : Type 0 where
  app_error_class not_found_error user_not_found_error project_not_found_error
        task_not_found_error :
      Class
  conflict_error email_already_registered_error invalid_credentials_error account_locked_error :
      Class
  email_not_verified_error invalid_token_error forbidden_error : Class

-- `type(exc)`
unfoldable pub class_of : AppError → Class
class_of (app_error _) = app_error_class
class_of (not_found _) = not_found_error
class_of (user_not_found _) = user_not_found_error
class_of (project_not_found _) = project_not_found_error
class_of (task_not_found _) = task_not_found_error
class_of (conflict _) = conflict_error
class_of (email_already_registered _) = email_already_registered_error
class_of (invalid_credentials _) = invalid_credentials_error
class_of (account_locked _ _) = account_locked_error
class_of (email_not_verified _) = email_not_verified_error
class_of (invalid_token _) = invalid_token_error
class_of (forbidden _) = forbidden_error

-- `exc.message`
unfoldable pub message : AppError → String
message (app_error m) = m
message (not_found m) = m
message (user_not_found m) = m
message (project_not_found m) = m
message (task_not_found m) = m
message (conflict m) = m
message (email_already_registered m) = m
message (invalid_credentials m) = m
message (account_locked m _) = m
message (email_not_verified m) = m
message (invalid_token m) = m
message (forbidden m) = m

-- `type(exc).__mro__`, as far as the classes of the application.
unfoldable pub mro : Class → List Class
mro not_found_error = not_found_error ∷ app_error_class ∷ []
mro user_not_found_error = user_not_found_error ∷ not_found_error ∷ app_error_class ∷ []
mro project_not_found_error = project_not_found_error ∷ not_found_error ∷ app_error_class ∷ []
mro task_not_found_error = task_not_found_error ∷ not_found_error ∷ app_error_class ∷ []
mro conflict_error = conflict_error ∷ app_error_class ∷ []
mro email_already_registered_error =
    email_already_registered_error ∷ conflict_error ∷ app_error_class ∷ []
mro app_error_class = app_error_class ∷ []
mro invalid_credentials_error = invalid_credentials_error ∷ app_error_class ∷ []
mro account_locked_error = account_locked_error ∷ app_error_class ∷ []
mro email_not_verified_error = email_not_verified_error ∷ app_error_class ∷ []
mro invalid_token_error = invalid_token_error ∷ app_error_class ∷ []
mro forbidden_error = forbidden_error ∷ app_error_class ∷ []

-- `_EXCEPTION_STATUS_MAP`
unfoldable pub exception_status_map : List (Class × ℕ)
exception_status_map =
    (not_found_error, 404)
    ∷ (conflict_error, 409)
    ∷ (invalid_credentials_error, 401)
    ∷ (invalid_token_error, 400)
    ∷ (email_not_verified_error, 403)
    ∷ (forbidden_error, 403)
    ∷ (account_locked_error, 423)
    ∷ []

-- The line `handled_exception`, with its extra fields.
pub record Warning : Type 0 where
  pub exception_type : Class
  pub status_code : ℕ

-- A response of an exception handler, and the line that is logged with it.
pub record JsonResponse : Type 0 where
  pub status_code : ℕ
  pub error : Class
  pub message : String
  pub request_id : Option String
  pub retry_after : Option ℕ
  pub warning : Warning

-- `extra_headers`
unfoldable pub retry_after_of : AppError → Option ℕ
retry_after_of (account_locked _ seconds) = some seconds
retry_after_of _ = none

-- `_make_handler`, with the value of `request_id_ctx`
unfoldable pub make_handler : ℕ → Option String → AppError → JsonResponse
make_handler http_status request_id exc = record {
  status_code = http_status;
  error = class_of exc;
  message = message exc;
  request_id = request_id;
  retry_after = retry_after_of exc;
  warning = record { exception_type = class_of exc; status_code = http_status };
}

-- Equality of classes, by their place in the list above.
abbrev pub rank : Class → ℕ
rank app_error_class = 0
rank not_found_error = 1
rank user_not_found_error = 2
rank project_not_found_error = 3
rank task_not_found_error = 4
rank conflict_error = 5
rank email_already_registered_error = 6
rank invalid_credentials_error = 7
rank account_locked_error = 8
rank email_not_verified_error = 9
rank invalid_token_error = 10
rank forbidden_error = 11

-- The handler that was added for a class.
abbrev pub registered : Class → List (Class × ℕ) → Option ℕ
registered c [] = none
registered c ((d, http_status) ∷ l) = if rank c == rank d then some http_status else registered c l

abbrev pub first_of : Option ℕ → Option ℕ → Option ℕ
first_of none o = o
first_of (some n) o = some n

-- Starlette's choice among the registered handlers for the classes of an exception: the first class
-- that has one.
pub record Starlette : Type 0 where
  pub lookup_handler : List (Class × ℕ) → List Class → Option ℕ
  pub lookup_handler_none : (handlers : List (Class × ℕ)) → lookup_handler handlers [] ≡ none
  pub lookup_handler_cons :
      (handlers : List (Class × ℕ)) (c : Class) (cs : List Class)
      → lookup_handler handlers (c ∷ cs)
        ≡ first_of (registered c handlers) (lookup_handler handlers cs)

-- The call of the handler that was found.
abbrev pub handle : Option String → AppError → Option ℕ → Option JsonResponse
handle request_id exc none = none
handle request_id exc (some http_status) = some (make_handler http_status request_id exc)

-- What `create_app` answers an exception of a request with; `none` is Starlette's own 500.
unfoldable pub answer : Starlette → Option String → Exception → Option JsonResponse
answer starlette request_id (app exc) =
    handle request_id exc (starlette.lookup_handler exception_status_map (mro (class_of exc)))
answer starlette request_id _ = none
