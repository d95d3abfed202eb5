-- ===== src/Http/Main.antt =====
-- `create_app` and `lifespan` of app/main.py: the routes with their prefixes, and what is opened and
-- closed around the requests (app/core/logging.py, app/core/redis.py, app/core/db.py).
use task_mgt_app.Base.{
  ℕ, String, ◌++◌, ◌≡◌, refl, Bool, true, false, not, ◌&&◌, List, [], ◌∷◌, append, any, map, str_eq,
}
use task_mgt_app.Http.{Class, exception_status_map}
use task_mgt_app.Http.Api.{
  Call, post_register, post_verify_email, post_login, post_refresh, post_logout,
  post_forgot_password, post_reset_password, me, post_project, projects, read_project,
  patch_project, remove_project, post_task, tasks, read_task, patch_task, remove_task,
}
use task_mgt_app.Logging.Configured.{Loggers, configure_logging}
use task_mgt_app.Settings.{Settings}

pub record Route : Type 0 where
  pub method : String
  pub path : String

-- `APIRouter(prefix=…)` with the paths of its decorators.
pub record Router : Type 0 where
  pub prefix : String
  pub routes : List Route

abbrev pub route : String → String → Route
route method path = record { method = method; path = path }

unfoldable pub health_router : Router
health_router = record { prefix = ""; routes = route "GET" "/health" ∷ [] }

unfoldable pub auth_router : Router
auth_router = record {
  prefix = "/auth";
  routes =
      route "POST" "/register"
      ∷ route "POST" "/verify-email"
      ∷ route "POST" "/login"
      ∷ route "POST" "/refresh"
      ∷ route "POST" "/logout"
      ∷ route "POST" "/forgot-password"
      ∷ route "POST" "/reset-password"
      ∷ route "GET" "/me"
      ∷ [];
}

unfoldable pub projects_router : Router
projects_router = record {
  prefix = "/projects";
  routes =
      route "POST" ""
      ∷ route "GET" ""
      ∷ route "GET" "/{project_id}"
      ∷ route "PATCH" "/{project_id}"
      ∷ route "DELETE" "/{project_id}"
      ∷ [];
}

unfoldable pub tasks_router : Router
tasks_router = record {
  prefix = "/tasks";
  routes =
      route "POST" ""
      ∷ route "GET" ""
      ∷ route "GET" "/{task_id}"
      ∷ route "PATCH" "/{task_id}"
      ∷ route "DELETE" "/{task_id}"
      ∷ [];
}

pub data Middleware : Type 0 where
  request_id_middleware : Middleware

pub record Application : Type 0 where
  pub title : String
  pub version : String
  pub docs_url : String
  pub middleware : List Middleware
  pub handlers : List (Class × ℕ)
  pub routes : List Route

unfoldable pub include_router : String → Router → Application → Application
include_router prefix router app = record app {
  routes =
      append app.routes
        (map (λ r. route r.method (prefix ++ (router.prefix ++ r.path))) router.routes);
}

abbrev pub api_v1_prefix : String
api_v1_prefix = "/api/v1"

unfoldable pub create_app : Application
unfolding include_router health_router auth_router projects_router tasks_router exception_status_map
create_app = include_router api_v1_prefix tasks_router (
    include_router api_v1_prefix projects_router (
      include_router api_v1_prefix auth_router (
        include_router "" health_router (record {
          title = "Task Management API";
          version = "0.1.0";
          docs_url = "/api-docs";
          middleware = request_id_middleware ∷ [];
          handlers = exception_status_map;
          routes = [];
        }))))

-- What the process holds open, and the lines that it logged.
pub record Process : Type 0 where
  pub loggers : Loggers
  pub log : List String
  pub redis_open : Bool
  pub engine_open : Bool

abbrev pub info : String → Process → Process
info message p = record p { log = message ∷ p.log }

unfoldable pub close_redis : Process → Process
close_redis p = record p { redis_open = false }

abbrev pub dispose_engine : Process → Process
dispose_engine p = record p { engine_open = false }

-- `lifespan`, around what is served at its `yield`.
unfoldable pub lifespan : Settings → (Process → Process) → Process → Process
unfolding configure_logging close_redis
lifespan settings served p =
    let started : Process =
      info "app_startup" (record p { loggers = configure_logging settings p.loggers }) in
    info "app_shutdown" (dispose_engine (close_redis (served started)))

-- The route of a call.
abbrev pub route_of : Call → Route
route_of (post_register _) = route "POST" "/api/v1/auth/register"
route_of (post_verify_email _) = route "POST" "/api/v1/auth/verify-email"
route_of (post_login _) = route "POST" "/api/v1/auth/login"
route_of (post_refresh _) = route "POST" "/api/v1/auth/refresh"
route_of (post_logout _) = route "POST" "/api/v1/auth/logout"
route_of (post_forgot_password _) = route "POST" "/api/v1/auth/forgot-password"
route_of (post_reset_password _) = route "POST" "/api/v1/auth/reset-password"
route_of me = route "GET" "/api/v1/auth/me"
route_of (post_project _) = route "POST" "/api/v1/projects"
route_of (projects _) = route "GET" "/api/v1/projects"
route_of (read_project _) = route "GET" "/api/v1/projects/{project_id}"
route_of (patch_project _ _) = route "PATCH" "/api/v1/projects/{project_id}"
route_of (remove_project _) = route "DELETE" "/api/v1/projects/{project_id}"
route_of (post_task _ _) = route "POST" "/api/v1/tasks"
route_of (tasks _ _ _ _ _) = route "GET" "/api/v1/tasks"
route_of (read_task _) = route "GET" "/api/v1/tasks/{task_id}"
route_of (patch_task _ _) = route "PATCH" "/api/v1/tasks/{task_id}"
route_of (remove_task _) = route "DELETE" "/api/v1/tasks/{task_id}"

abbrev pub same_route : Route → Route → Bool
same_route r s = str_eq r.method s.method && str_eq r.path s.path

abbrev pub is_distinct : List Route → Bool
is_distinct [] = true
is_distinct (r ∷ l) = let rest = is_distinct l in not (any (same_route r) l) && rest

-- No method and path stand twice in the table.
routes_distinct : is_distinct create_app.routes ≡ true
unfolding create_app
routes_distinct = refl

-- Every call has a route in the table.
pub routed : (call : Call) → any (same_route (route_of call)) create_app.routes ≡ true
unfolding create_app
routed (post_register _) = refl
routed (post_verify_email _) = refl
routed (post_login _) = refl
routed (post_refresh _) = refl
routed (post_logout _) = refl
routed (post_forgot_password _) = refl
routed (post_reset_password _) = refl
routed me = refl
routed (post_project _) = refl
routed (projects _) = refl
routed (read_project _) = refl
routed (patch_project _ _) = refl
routed (remove_project _) = refl
routed (post_task _ _) = refl
routed (tasks _ _ _ _ _) = refl
routed (read_task _) = refl
routed (patch_task _ _) = refl
routed (remove_task _) = refl
