-- ===== src/Projects/Repository.antt =====
-- `class ProjectRepository` of app/projects/repository.py.
use task_mgt_app.Base.{ℕ, Bool, ◌&&◌, Option, List, ◌==◌}
use task_mgt_app.Entity.{Uuid}
use task_mgt_app.Errors.{Result}
use task_mgt_app.Pagination.{PageParams, offset, limit}
use task_mgt_app.Projects.Model.{Project, project_model}
use task_mgt_app.Repository.{active}
use task_mgt_app.Sql.{Sql}

module _ (sql : Sql) where
  -- The condition of `get_by_id_for_owner`.
  unfoldable pub is_owned : Uuid → Uuid → Project → Bool
  unfolding active
  is_owned project_id owner_id p =
      active sql project_model p && (p.id == project_id && p.owner_id == owner_id)

  unfoldable pub get_by_id_for_owner : Uuid → Uuid → List Project → Result (Option Project)
  unfolding is_owned
  get_by_id_for_owner project_id owner_id t =
      sql.scalar_one_or_none (sql.select (is_owned project_id owner_id) t)

  -- The condition of `base_stmt`.
  unfoldable pub is_listed : Uuid → Project → Bool
  unfolding active
  is_listed owner_id p = active sql project_model p && p.owner_id == owner_id

  unfoldable pub list_for_owner : Uuid → PageParams → List Project → List Project × ℕ
  unfolding is_listed offset limit
  list_for_owner owner_id page_params t =
      let base_stmt : List Project = sql.select (is_listed owner_id) t in
      (
        sql.page (offset page_params) (limit page_params) (
            sql.order_by_desc (offset page_params) (limit page_params) (λ p. p.created_at)
              base_stmt),
        sql.count base_stmt,
      )
