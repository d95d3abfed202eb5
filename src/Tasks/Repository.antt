-- ===== src/Tasks/Repository.antt =====
-- `class TaskRepository` of app/tasks/repository.py. The `ILIKE` of PostgreSQL is a parameter.
use task_mgt_app.Base.{
  ℕ, String, ◌++◌, Bool, true, false, ◌&&◌, ◌||◌, Option, none, some, List, map, ◌==◌, is_none,
}
use task_mgt_app.Entity.{Uuid, Instant, mark_deleted, stamped}
use task_mgt_app.Errors.{Result, ok, err}
use task_mgt_app.Pagination.{PageParams, offset, limit}
use task_mgt_app.Projects.Model.{Project}
use task_mgt_app.Repository.{active}
use task_mgt_app.Sql.{Sql}
use task_mgt_app.Tasks.Model.{
  Task, TaskStatus, TaskPriority, task_model, same_status, same_priority,
}

pub record TaskFilters : Type 0 where
  pub project_id : Option Uuid
  pub status : Option TaskStatus
  pub priority : Option TaskPriority
  pub search : Option String

-- `.scalar_one_or_none()` of a join gives the first of the two objects.
abbrev pub task_of : Result (Option (Task × Project)) → Result (Option Task)
task_of (err e) = err e
task_of (ok none) = ok none
task_of (ok (some r)) = ok (some r.0)

-- The bulk UPDATE of `soft_delete_by_project`, at the `now()` of the transaction.
unfoldable pub soft_delete_by_project : Sql → Instant → Uuid → List Task → List Task
unfolding mark_deleted
soft_delete_by_project sql now project_id tasks =
    sql.update (λ t. t.project_id == project_id && is_none t.deleted_at)
      (λ t. record t { entity = stamped true now (mark_deleted now t.entity) }) tasks

module _ (sql : Sql) (ilike : String → String → Bool) where
  -- `Project.id == Task.project_id`
  unfoldable pub on_project : Task → Project → Bool
  on_project t p = p.id == t.project_id

  -- The condition of `get_by_id_for_owner`, of a row of the join.
  unfoldable pub is_owned : Uuid → Uuid → Task × Project → Bool
  unfolding active
  is_owned task_id owner_id r =
      active sql task_model r.0
      && (r.0.id == task_id && (r.1.owner_id == owner_id && is_none r.1.deleted_at))

  unfoldable pub get_by_id_for_owner : Uuid → Uuid → List Task → List Project → Result (Option Task)
  unfolding is_owned on_project
  get_by_id_for_owner task_id owner_id tasks projects = task_of (
      sql.scalar_one_or_none
        (sql.select (is_owned task_id owner_id) (sql.join on_project tasks projects)))

  -- The condition of `base_stmt` before the filters.
  unfoldable pub is_listed : Uuid → Task × Project → Bool
  unfolding active
  is_listed owner_id r =
      active sql task_model r.0 && (r.1.owner_id == owner_id && is_none r.1.deleted_at)

  unfoldable pub in_project : Option Uuid → Task → Bool
  in_project none t = true
  in_project (some project_id) t = t.project_id == project_id

  unfoldable pub with_status : Option TaskStatus → Task → Bool
  with_status none t = true
  with_status (some status) t = same_status t.status status

  unfoldable pub with_priority : Option TaskPriority → Task → Bool
  with_priority none t = true
  with_priority (some priority) t = same_priority t.priority priority

  -- A column that is NULL matches no pattern.
  unfoldable pub matches : Option String → String → Bool
  matches none pattern = false
  matches (some column) pattern = ilike column pattern

  -- `if filters.search: …`, where the empty text does not filter.
  unfoldable pub found_by : Option String → Task → Bool
  unfolding matches
  found_by none t = true
  found_by (some String.[]) t = true
  found_by (some (String.◌∷◌ c s)) t =
      let pattern : String = "%" ++ (String.◌∷◌ c s ++ "%") in
      matches t.title pattern || matches t.description pattern

  -- The conditions that the filters add.
  unfoldable pub passes : TaskFilters → Task → Bool
  unfolding in_project with_status with_priority found_by
  passes filters t =
      in_project filters.project_id t
      && (with_status filters.status t
          && (with_priority filters.priority t && found_by filters.search t))

  unfoldable pub list_for_owner :
      Uuid → TaskFilters → PageParams → List Task → List Project → List Task × ℕ
  unfolding is_listed passes on_project offset limit
  list_for_owner owner_id filters page_params tasks projects =
      let base_stmt : List (Task × Project) =
        sql.select (λ r. is_listed owner_id r && passes filters r.0)
          (sql.join on_project tasks projects) in
      (
        map (λ r. r.0)
            (sql.page (offset page_params) (limit page_params) (
              sql.order_by_desc (offset page_params) (limit page_params) (λ r. r.0.created_at)
                base_stmt)),
        sql.count base_stmt,
      )
