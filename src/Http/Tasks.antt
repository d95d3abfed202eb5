-- ===== src/Http/Tasks.antt =====
-- app/tasks/router.py, behind the schemas of app/tasks/schemas.py: the endpoints over
-- `TaskService`, for the user that `get_current_user` found.
use task_mgt_app.Base.{ℕ, String, Bool, Option, none, some, List, [], ◌∷◌}
use task_mgt_app.Auth.Model.{User}
use task_mgt_app.Db.{Session, ◌>>=◌, pure, lift}
use task_mgt_app.Entity.{Uuid, Instant}
use task_mgt_app.Errors.{Result, ok, err, joined, response_validation_error}
use task_mgt_app.Pagination.{PageParams, Page}
use task_mgt_app.Sql.{Sql}
use task_mgt_app.Tasks.Model.{Task, TaskStatus, TaskPriority, TaskCreate, TaskUpdate}
use task_mgt_app.Tasks.Repository.{TaskFilters}
use task_mgt_app.Tasks.Service as Service

pub record TaskRead : Type 0 where
  pub id : Uuid
  pub project_id : Uuid
  pub title : String
  pub description : Option String
  pub status : TaskStatus
  pub priority : TaskPriority
  pub due_date : Option ℕ
  pub created_at : Instant
  pub updated_at : Instant

-- The fields of an object as the response model takes them, given those that it wants non-null.
abbrev pub read_filled :
    Task → Option String → Option TaskStatus → Option TaskPriority → Result TaskRead
read_filled t (some title) (some status) (some priority) = ok (record {
  id = t.id;
  project_id = t.project_id;
  title = title;
  description = t.description;
  status = status;
  priority = priority;
  due_date = t.due_date;
  created_at = t.created_at;
  updated_at = t.updated_at;
})
read_filled t none _ _ = err response_validation_error
read_filled t (some _) none _ = err response_validation_error
read_filled t (some _) (some _) none = err response_validation_error

-- The response model of an object, built before the dependencies are left.
unfoldable pub task_read : Task → Result TaskRead
task_read t = read_filled t t.title t.status t.priority

-- The items of a page, which the endpoint validates itself.
unfoldable pub tasks_read : List Task → Result (List TaskRead)
unfolding task_read
tasks_read [] = ok []
tasks_read (t ∷ l) = joined (task_read t) (tasks_read l)

module _ (sql : Sql) (ilike : String → String → Bool) (current_user : User) where
  unfoldable pub create_task : Uuid → Instant → Uuid → TaskCreate → Session TaskRead
  create_task id now project_id fields = do
    task ← Service.create sql ilike id now current_user.id project_id fields
    lift (task_read task)

  unfoldable pub list_tasks :
      PageParams
      → Option Uuid
      → Option TaskStatus
      → Option TaskPriority
      → Option String
      → Session (Page TaskRead)
  list_tasks page_params project_id status priority search = do
    let filters : TaskFilters = record {
      project_id = project_id;
      status = status;
      priority = priority;
      search = search;
    }
    found ← Service.list sql ilike current_user.id filters page_params
    items ← lift (tasks_read found.0)
    pure (record {
      items = items;
      total = found.1;
      page = page_params.page;
      page_size = page_params.page_size;
    })

  unfoldable pub get_task : Uuid → Session TaskRead
  get_task task_id = do task ← Service.get sql ilike task_id current_user.id; lift (task_read task)

  unfoldable pub update_task : Instant → Uuid → TaskUpdate → Session TaskRead
  update_task now task_id updates = do
    task ← Service.update sql ilike now task_id current_user.id updates
    lift (task_read task)

  unfoldable pub delete_task : Instant → Uuid → Session (Unit {0})
  delete_task now task_id = Service.delete sql ilike now task_id current_user.id
