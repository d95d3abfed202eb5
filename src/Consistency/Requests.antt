-- ===== src/Consistency/Requests.antt =====
-- The ids and the projects of tasks, behind each operation of the services of projects and tasks.
use task_mgt_app.Base.{
  String, ◌≡◌, Bool, false, not, ◌&&◌, Option, some, ◌∷◌, any, arith, ◌==◌, Option-cases,
  Bool-cases, inl, inr, if◌then◌else◌,
}
use task_mgt_app.Consistency.Rows.{
  is_orphan, IsSound, project_put-IsSound, project_add-IsSound, task_put-IsSound, task_add-IsSound,
  swept-IsSound,
}
use task_mgt_app.Db.{Db}
use task_mgt_app.Entity.{Uuid, Instant}
use task_mgt_app.Errors.{ok, err, integrity_error}
use task_mgt_app.Projects.Cascade as Cascade
use task_mgt_app.Projects.Model.{Project, new_project, ProjectUpdate}
use task_mgt_app.Projects.Model as ProjectModel
use task_mgt_app.Projects.Ownership as Projects
use task_mgt_app.Projects.Repository as ProjectRepository
use task_mgt_app.Projects.Service as ProjectService
use task_mgt_app.Repository as Base
use task_mgt_app.Repository.Lookup.{first, first-none_other}
use task_mgt_app.Sql.{Sql}
use task_mgt_app.Tasks.Changes as Changes
use task_mgt_app.Tasks.Model.{Task, new_task, TaskCreate, TaskUpdate, set_fields, flushed}
use task_mgt_app.Tasks.Model as TaskModel
use task_mgt_app.Tasks.Ownership as Tasks
use task_mgt_app.Tasks.Service as TaskService

module _ (sql : Sql) where
  pub projects_add_lem :
      (p : Project) (s : Db)
      → ProjectService.projects_add sql p s ≡ (
          if ProjectModel.is_complete p && not (any (λ q. q.id == p.id) s.projects)
          then (ok p, record s { projects = p ∷ s.projects })
          else (err integrity_error, s))
  unfolding ProjectService.projects_add Base.add
  projects_add_lem p s = rw sql.insert_lem (ground arith)

  projects_add-IsSound :
      (p : Project) (s : Db) → IsSound s → IsSound (ProjectService.projects_add sql p s).1
  projects_add-IsSound p s v =
      elim (Bool-cases (ProjectModel.is_complete p && not (any (λ q. q.id == p.id) s.projects))) [
        | inl accepted ↦
            rw (projects_add_lem p s, accepted) (project_add-IsSound p s (ground arith) v)
        | inr refused ↦ rw (projects_add_lem p s, refused) v
      ]

  pub create_project-IsSound :
      (id : Uuid) (now : Instant) (o : Uuid) (name : String) (description : Option String) (s : Db)
      → IsSound s
      → IsSound (ProjectService.create sql id now o name description s).1
  unfolding ProjectService.create
  create_project-IsSound id now o name description s v = projects_add-IsSound _ s v

  pub update_project-IsSound :
      (now : Instant) (i o : Uuid) (fields : ProjectUpdate) (s : Db)
      → IsSound s
      → IsSound (ProjectService.update sql now i o fields s).1
  update_project-IsSound now i o fields s v =
      elim (Option-cases (first Projects.id_of (ProjectRepository.is_owned sql i o) s.projects)) [
        | inl missing ↦ rw (Projects.update_missing sql now i o fields s v.ids.projects missing) v
        | inr (p, found) ↦
            rw (Projects.update_lem sql now i o fields p s v.ids.projects found)
              (project_put-IsSound (ProjectModel.flushed now fields p) s v)
      ]

  pub delete_project-IsSound :
      (now : Instant) (i o : Uuid) (s : Db)
      → IsSound s
      → IsSound (ProjectService.delete sql now i o s).1
  delete_project-IsSound now i o s v =
      elim (Option-cases (first Projects.id_of (ProjectRepository.is_owned sql i o) s.projects)) [
        | inl missing ↦ rw (Projects.delete_missing sql i o now s v.ids.projects missing) v
        | inr (p, found) ↦
            rw (Cascade.delete_lem sql now i o p s v.ids.projects found)
              (project_put-IsSound (Cascade.deleted_row sql now p) _ (swept-IsSound now p.id s v))
      ]

module _ (sql : Sql) (ilike : String → String → Bool) where
  pub tasks_add_lem :
      (t : Task) (s : Db)
      → TaskService.tasks_add sql ilike t s ≡ (
          if TaskModel.is_complete t
            && (not (any (λ u. u.id == t.id) s.tasks) && any (λ p. p.id == t.project_id) s.projects)
          then (ok t, record s { tasks = t ∷ s.tasks })
          else (err integrity_error, s))
  unfolding TaskService.tasks_add Base.add
  tasks_add_lem t s = rw sql.insert_lem (ground arith)

  tasks_add-IsSound :
      (t : Task) (s : Db) → IsSound s → IsSound (TaskService.tasks_add sql ilike t s).1
  tasks_add-IsSound t s v =
      elim (Bool-cases (
        TaskModel.is_complete t
        && (not (any (λ u. u.id == t.id) s.tasks) && any (λ p. p.id == t.project_id) s.projects))) [
          | inl accepted ↦
              rw (tasks_add_lem t s, accepted)
                (task_add-IsSound t s (ground arith) (ground arith) v)
          | inr refused ↦ rw (tasks_add_lem t s, refused) v
        ]

  pub create_task-IsSound :
      (id : Uuid) (now : Instant) (o i : Uuid) (fields : TaskCreate) (s : Db)
      → IsSound s
      → IsSound (TaskService.create sql ilike id now o i fields s).1
  create_task-IsSound id now o i fields s v =
      elim (Option-cases (first Projects.id_of (ProjectRepository.is_owned sql i o) s.projects)) [
        | inl missing ↦ rw (Tasks.create_missing sql ilike id now o i fields s v.ids missing) v
        | inr (p, found) ↦
            rw (Tasks.create_found sql ilike id now o i fields p s v.ids found)
              (tasks_add-IsSound _ s v)
      ]

  -- A task that is found has its project.
  pub found_rooted :
      (i o : Uuid) (t : Task) (s : Db)
      → IsSound s
      → first Tasks.id_of (Tasks.is_reachable i o s.projects) s.tasks ≡ some t
      → is_orphan s.projects t ≡ false
  found_rooted i o t s v found =
      first-none_other Tasks.id_of (Tasks.is_reachable i o s.projects) (is_orphan s.projects) t
        s.tasks found v.rooted

  pub update_task-IsSound :
      (now : Instant) (i o : Uuid) (fields : TaskUpdate) (s : Db)
      → IsSound s
      → IsSound (TaskService.update sql ilike now i o fields s).1
  update_task-IsSound now i o fields s v =
      elim (Option-cases (first Tasks.id_of (Tasks.is_reachable i o s.projects) s.tasks)) [
        | inl missing ↦ rw (Tasks.update_missing sql ilike now i o fields s v.ids missing) v
        | inr (t, found) ↦ rw (Changes.update_lem sql ilike now i o fields t s v.ids found) (
            task_put-IsSound (flushed now fields t) s
              (unfold flushed set_fields in found_rooted i o t s v found) v)
      ]

  pub delete_task-IsSound :
      (now : Instant) (i o : Uuid) (s : Db)
      → IsSound s
      → IsSound (TaskService.delete sql ilike now i o s).1
  delete_task-IsSound now i o s v =
      elim (Option-cases (first Tasks.id_of (Tasks.is_reachable i o s.projects) s.tasks)) [
        | inl missing ↦ rw (Tasks.delete_missing sql ilike now i o s v.ids missing) v
        | inr (t, found) ↦
            rw (Changes.delete_lem sql ilike now i o t s v.ids found)
              (task_put-IsSound (Changes.deleted_row now t) s (found_rooted i o t s v found) v)
      ]
