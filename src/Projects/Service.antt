-- ===== src/Projects/Service.antt =====
-- `class ProjectService` of app/projects/service.py, over the repositories of projects and tasks.
use task_mgt_app.Base.{ℕ, String, not, ◌&&◌, any, Option, List, ◌==◌}
use task_mgt_app.Db.{Session, ◌>>=◌, ◌>>◌, pure, or_raise, on_projects, on_tasks}
use task_mgt_app.Entity.{Uuid, Instant}
use task_mgt_app.Errors.{Exception, app, project_not_found}
use task_mgt_app.Pagination.{PageParams}
use task_mgt_app.Projects.Model.{
  Project, project_model, is_complete, new_project, ProjectUpdate, set_fields, is_modified,
}
use task_mgt_app.Projects.Repository.{get_by_id_for_owner, list_for_owner}
use task_mgt_app.Repository as Base
use task_mgt_app.Sql.{Sql}
use task_mgt_app.Tasks.Repository.{soft_delete_by_project}

abbrev pub not_found : Exception
not_found = app (project_not_found "Project not found.")

module _ (sql : Sql) where
  -- `self._projects.add`: the primary key and the NOT NULL columns.
  unfoldable pub projects_add : Project → Session Project
  unfolding Base.add is_complete
  projects_add p s =
      let (r, t) =
        Base.add sql project_model (is_complete p && not (any (λ q. q.id == p.id) s.projects)) p
          s.projects in
      (r, record s { projects = t })

  unfoldable pub create : Uuid → Instant → Uuid → String → Option String → Session Project
  unfolding projects_add new_project
  create id now owner_id name description =
      projects_add (new_project id now owner_id name description)

  unfoldable pub list : Uuid → PageParams → Session (List Project × ℕ)
  unfolding list_for_owner
  list owner_id page_params s = pure (list_for_owner sql owner_id page_params s.projects) s

  unfoldable pub get : Uuid → Uuid → Session Project
  unfolding get_by_id_for_owner
  get project_id owner_id = do
    project ← λ s. (get_by_id_for_owner sql project_id owner_id s.projects, s)
    or_raise project not_found

  unfoldable pub update : Instant → Uuid → Uuid → ProjectUpdate → Session Project
  unfolding set_fields is_modified Base.write
  update now project_id owner_id fields = do
    project ← get project_id owner_id
    let changed : Project = set_fields fields project
    on_projects (Base.write sql project_model (is_modified fields project) now changed)
    pure changed

  unfoldable pub delete : Instant → Uuid → Uuid → Session (Unit {0})
  unfolding soft_delete_by_project Base.delete
  delete now project_id owner_id = do
    project ← get project_id owner_id
    on_tasks (soft_delete_by_project sql now project.id)
    on_projects (Base.delete sql project_model now project)
