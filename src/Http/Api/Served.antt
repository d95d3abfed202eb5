-- ===== src/Http/Api/Served.antt =====
-- The endpoints of projects and tasks, as `run_as` calls them, against the services.
use task_mgt_app.Base.{ℕ, String, ◌≡◌, Bool, true, Option, none, some}
use task_mgt_app.Auth.Model.{User}
use task_mgt_app.Auth.World.{Env, Draws}
use task_mgt_app.Catalog.{Request}
use task_mgt_app.Catalog.Serve as Services
use task_mgt_app.Consistency.Transactions.{IsConsistent}
use task_mgt_app.Db.{get_db}
use task_mgt_app.Errors.{Result}
use task_mgt_app.Http.Api.{
  Call, post_register, post_verify_email, post_login, post_refresh, post_logout,
  post_forgot_password, post_reset_password, me, post_project, projects, read_project,
  patch_project, remove_project, post_task, tasks, read_task, patch_task, remove_task, a_project,
  a_task, no_content, Reply, FastApi, AppState,
}
use task_mgt_app.Http.Api.Contract.{
  request_of, is_valid_call, success_of, plainly, reply_for, end_session_lem, on_session_lem,
}
use task_mgt_app.Http.Api.Settled.{
  read_project-Settles, patch_project-Settles, post_project-Settles, read_task-Settles,
  patch_task-Settles, post_task-Settles,
}
use task_mgt_app.Http.Api.Serve.{on_session, when_valid, run_as}
use task_mgt_app.Http.Projects as HttpProjects
use task_mgt_app.Http.Projects.{project_read, read_named}
use task_mgt_app.Http.Tasks as HttpTasks
use task_mgt_app.Http.Tasks.{task_read, read_filled}
use task_mgt_app.Sql.{Sql}

module _ (env : Env) (fast_api : FastApi) (sql : Sql) (ilike : String → String → Bool) where
  -- An endpoint has served a request of the catalog, up to the refusal of an empty column.
  abbrev pub IsServed : ℕ → AppState env → Result Reply × AppState env → Option Request → Type 0
  IsServed n st x none = Unit {0}
  IsServed n st x (some r) =
      (plainly x.0 ≡ reply_for n (Services.serve sql ilike r st.db).0)
      × (x.1 ≡ record st { db = (Services.serve sql ilike r st.db).1 })

  pub run_as-IsServed :
      (draws : Draws) (call : Call) (user : User) (st : AppState env)
      → IsConsistent st.db
      → is_valid_call call ≡ true
      → IsServed
          (success_of call)
          st
          (run_as env fast_api sql ilike draws call user st)
          (request_of draws st.world.now user.id call)
  unfolding run_as request_of is_valid_call success_of reply_for Services.serve when_valid
      HttpProjects.create_project HttpProjects.get_project HttpProjects.update_project
      HttpProjects.delete_project HttpTasks.create_task HttpTasks.get_task HttpTasks.update_task
      HttpTasks.delete_task on_session
  run_as-IsServed draws (post_register _) user st w h = tt
  run_as-IsServed draws (post_verify_email _) user st w h = tt
  run_as-IsServed draws (post_login _) user st w h = tt
  run_as-IsServed draws (post_refresh _) user st w h = tt
  run_as-IsServed draws (post_logout _) user st w h = tt
  run_as-IsServed draws (post_forgot_password _) user st w h = tt
  run_as-IsServed draws (post_reset_password _) user st w h = tt
  run_as-IsServed draws me user st w h = tt
  run_as-IsServed draws (projects _) user st w h = tt
  run_as-IsServed draws (tasks _ _ _ _ _) user st w h = tt
  run_as-IsServed draws (post_project p) user st w h = rw h (
      on_session_lem st 201 (λ q. a_project q) project_read _
        (post_project-Settles sql ilike st.db w draws.id st.world.now user.id p.name p.description))
  run_as-IsServed draws (read_project i) user st w h =
      on_session_lem st 200 (λ q. a_project q) project_read _
        (read_project-Settles sql ilike st.db w i user.id)
  run_as-IsServed draws (patch_project i fields) user st w h = rw h (
      on_session_lem st 200 (λ q. a_project q) project_read _
        (patch_project-Settles sql ilike st.db w st.world.now i user.id fields))
  run_as-IsServed draws (remove_project i) user st w h =
      end_session_lem st 204 (λ _. no_content) (get_db _ st.db)
  run_as-IsServed draws (post_task i fields) user st w h = rw h (
      on_session_lem st 201 (λ t. a_task t) task_read _
        (post_task-Settles sql ilike st.db w draws.id st.world.now user.id i fields))
  run_as-IsServed draws (read_task i) user st w h =
      on_session_lem st 200 (λ t. a_task t) task_read _
        (read_task-Settles sql ilike st.db w i user.id)
  run_as-IsServed draws (patch_task i fields) user st w h = rw h (
      on_session_lem st 200 (λ t. a_task t) task_read _
        (patch_task-Settles sql ilike st.db w st.world.now i user.id fields))
  run_as-IsServed draws (remove_task i) user st w h =
      end_session_lem st 204 (λ _. no_content) (get_db _ st.db)
