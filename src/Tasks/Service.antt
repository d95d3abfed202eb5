-- ===== src/Tasks/Service.antt =====
-- `class TaskService` of app/tasks/service.py, over the repositories of tasks and projects.
use task_mgt_app.Base.{ℕ, String, Bool, not, ◌&&◌, any, List, ◌==◌}
use task_mgt_app.Db.{Session, ◌>>=◌, ◌>>◌, pure, or_raise, on_tasks}
use task_mgt_app.Entity.{Uuid, Instant}
use task_mgt_app.Errors.{Exception, app, task_not_found}
use task_mgt_app.Pagination.{PageParams}
use task_mgt_app.Projects.Repository as ProjectRepository
use task_mgt_app.Projects.Service as ProjectService
use task_mgt_app.Repository as Base
use task_mgt_app.Sql.{Sql}
use task_mgt_app.Tasks.Model.{
  Task, task_model, is_complete, new_task, TaskCreate, TaskUpdate, set_fields, is_modified,
}
use task_mgt_app.Tasks.Repository.{TaskFilters, get_by_id_for_owner, list_for_owner}

abbrev pub not_found : Exception
not_found = app (task_not_found "Task not found.")

module _ (sql : Sql) (ilike : String → String → Bool) where
  -- `self._tasks.add`: the primary key, the foreign key and the NOT NULL columns.
  unfoldable pub tasks_add : Task → Session Task
  unfolding Base.add is_complete
  tasks_add t s =
      let accepted : Bool =
        is_complete t
        && (not (any (λ u. u.id == t.id) s.tasks) && any (λ p. p.id == t.project_id) s.projects) in
      let (r, l) = Base.add sql task_model accepted t s.tasks in (r, record s { tasks = l })

  unfoldable pub create : Uuid → Instant → Uuid → Uuid → TaskCreate → Session Task
  unfolding tasks_add new_task ProjectRepository.get_by_id_for_owner
  create id now owner_id project_id fields = do
    project ← λ s. (ProjectRepository.get_by_id_for_owner sql project_id owner_id s.projects, s)
    or_raise project ProjectService.not_found
    tasks_add (new_task id now project_id fields)

  unfoldable pub list : Uuid → TaskFilters → PageParams → Session (List Task × ℕ)
  unfolding list_for_owner
  list owner_id filters page_params s =
      pure (list_for_owner sql ilike owner_id filters page_params s.tasks s.projects) s

  unfoldable pub get : Uuid → Uuid → Session Task
  unfolding get_by_id_for_owner
  get task_id owner_id = do
    task ← λ s. (get_by_id_for_owner sql ilike task_id owner_id s.tasks s.projects, s)
    or_raise task not_found

  unfoldable pub update : Instant → Uuid → Uuid → TaskUpdate → Session Task
  unfolding set_fields is_modified Base.write
  update now task_id owner_id fields = do
    task ← get task_id owner_id
    let changed : Task = set_fields fields task
    on_tasks (Base.write sql task_model (is_modified fields task) now changed)
    pure changed

  unfoldable pub delete : Instant → Uuid → Uuid → Session (Unit {0})
  unfolding Base.delete
  delete now task_id owner_id = do
    task ← get task_id owner_id
    on_tasks (Base.delete sql task_model now task)
