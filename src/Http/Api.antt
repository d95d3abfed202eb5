-- ===== src/Http/Api.antt =====
-- A request from its headers to its response: `create_app` of app/main.py over the routers of
-- app/auth, app/projects and app/tasks, with the dependencies `get_current_user` and `get_db`.
-- FastAPI calls the dependencies of an endpoint before it validates the body.
pub mod Serve
pub mod Outcome
pub mod Ending
pub mod Rollback
pub mod Guarded
pub mod Correlation
pub mod Lockout
pub mod Contract
pub mod Settled
pub mod Served
pub mod Honoured
use task_mgt_app.Base.{ℕ, String, Bool, true, false, ◌&&◌, Option, none, some, List, [], leb}
use task_mgt_app.Auth.World.{Env, World}
use task_mgt_app.Db.{Db}
use task_mgt_app.Entity.{Uuid}
use task_mgt_app.Errors.{Result, ok, err}
use task_mgt_app.Http.{JsonResponse}
use task_mgt_app.Http.Auth.{MessageResponse, TokenPair, Mail}
use task_mgt_app.Http.Projects.{ProjectCreate, ProjectRead}
use task_mgt_app.Http.Schemas.{RegisterRequest, LoginRequest, ResetPasswordRequest, UserRead}
use task_mgt_app.Http.Tasks.{TaskRead}
use task_mgt_app.Pagination.{PageParams, Page}
use task_mgt_app.Projects.Model.{ProjectUpdate}
use task_mgt_app.Tasks.Model.{TaskStatus, TaskPriority, TaskCreate, TaskUpdate}

-- What a request asks for: the route, with the parsed path, query and body.
pub data Call : Type 0 where
  post_register : RegisterRequest → Call
  post_verify_email : String → Call
  post_login : LoginRequest → Call
  post_refresh : String → Call
  post_logout : String → Call
  post_forgot_password : String → Call
  post_reset_password : ResetPasswordRequest → Call
  me : Call
  post_project : ProjectCreate → Call
  projects : PageParams → Call
  read_project : Uuid → Call
  patch_project : Uuid → ProjectUpdate → Call
  remove_project : Uuid → Call
  post_task : Uuid → TaskCreate → Call
  tasks : PageParams → Option Uuid → Option TaskStatus → Option TaskPriority → Option String → Call
  read_task : Uuid → Call
  patch_task : Uuid → TaskUpdate → Call
  remove_task : Uuid → Call

-- Whether the endpoint depends on `get_current_user`.
unfoldable pub is_protected : Call → Bool
is_protected (post_register _) = false
is_protected (post_verify_email _) = false
is_protected (post_login _) = false
is_protected (post_refresh _) = false
is_protected (post_logout _) = false
is_protected (post_forgot_password _) = false
is_protected (post_reset_password _) = false
is_protected _ = true

pub record HttpRequest : Type 0 where
  pub method : String
  pub path : String
  pub x_request_id : Option String
  pub authorization : Option String
  pub call : Call

pub data Body : Type 0 where
  a_user : UserRead → Body
  a_message : MessageResponse → Body
  a_token_pair : TokenPair → Body
  a_project : ProjectRead → Body
  some_projects : Page ProjectRead → Body
  a_task : TaskRead → Body
  some_tasks : Page TaskRead → Body
  no_content : Body
  -- of the exception handlers, and of FastAPI itself
  a_problem : JsonResponse → Body
  a_detail : Body

-- A response, with the mails that its background tasks send.
pub record Reply : Type 0 where
  pub status_code : ℕ
  pub body : Body
  pub mails : List Mail

abbrev pub plain : ℕ → Body → Reply
plain status_code body = record { status_code = status_code; body = body; mails = [] }

-- What FastAPI does itself: `EmailStr`, `HTTPBearer` with the status of its refusal.
pub record FastApi : Type 0 where
  pub email_str : String → Option String
  pub bearer : Option String → Option String
  pub bearer_refused : ℕ

abbrev pub unprocessable : Reply
unprocessable = plain 422 a_detail

-- The state of the application: users, Redis and the clock, and the tables of projects and tasks.
pub record AppState (env : Env) : Type 0 where
  pub world : World env
  pub db : Db

-- The response without its header.
abbrev pub reply_of : Result (Reply × String) → Result Reply
reply_of (ok (reply, _)) = ok reply
reply_of (err e) = err e

abbrev pub is_success : Result Reply → Bool
is_success (ok reply) = leb 200 reply.status_code && leb reply.status_code 299
is_success (err e) = false
