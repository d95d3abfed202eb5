-- ===== src/Http/Api/Settled.antt =====
-- How the calls of the services of projects and tasks end, for the response models of the endpoints.
use task_mgt_app.Base.{
  String, ◌≡◌, refl, ap, ◌∙◌, Bool, true, false, Option, some, any, Option-cases, Bool-cases, ◌∷◌,
  inl, inr,
}
use task_mgt_app.Catalog.Commit.{
  is_partial, is_partial_task, IsComplete-of, incomplete_projects, incomplete_tasks, found_complete,
}
use task_mgt_app.Catalog.Projects.Rows as ProjectRows
use task_mgt_app.Catalog.Tasks.Rows as TaskRows
use task_mgt_app.Consistency.Requests.{projects_add_lem, tasks_add_lem}
use task_mgt_app.Consistency.Transactions.{IsConsistent}
use task_mgt_app.Db.{Db, is_complete}
use task_mgt_app.Entity.{Uuid, Instant}
use task_mgt_app.Errors.{Result, ok, integrity_error}
use task_mgt_app.Http.Api.Contract.{Settles, raises, reads, unread}
use task_mgt_app.Http.Projects.{project_read, read_named}
use task_mgt_app.Http.Tasks.{task_read, read_filled}
use task_mgt_app.Projects.Model.{Project, ProjectUpdate, new_project}
use task_mgt_app.Projects.Model as ProjectModel
use task_mgt_app.Projects.Ownership as Projects
use task_mgt_app.Projects.Repository as ProjectRepository
use task_mgt_app.Projects.Service as ProjectService
use task_mgt_app.Repository.Lookup.{at, first, any-put_row, any-first_pinned}
use task_mgt_app.Sql.{Sql}
use task_mgt_app.Tasks.Changes.{update_lem}
use task_mgt_app.Tasks.Model.{Task, TaskCreate, TaskUpdate, new_task}
use task_mgt_app.Tasks.Model as TaskModel
use task_mgt_app.Tasks.Ownership as Tasks
use task_mgt_app.Tasks.Service as TaskService

project-Settles :
    (p : Project) (t : Db) (r : Result Project × Db)
    → r ≡ (ok p, t)
    → (ProjectModel.is_complete p ≡ false → is_complete t ≡ false)
    → Settles project_read r
unfolding project_read ProjectModel.is_complete
project-Settles p t r h partial = elim (Option-cases p.name) [
  | inl empty ↦ unread p t h (ap (read_named p) empty) (partial (rw empty refl))
  | inr (name, filled) ↦ reads p _ t h (ap (read_named p) filled)
]

full_project-Settles :
    (p : Project) (t : Db) (r : Result Project × Db)
    → r ≡ (ok p, t)
    → ProjectModel.is_complete p ≡ true
    → Settles project_read r
full_project-Settles p t r h full = project-Settles p t r h (λ partial. cc)

task-Settles :
    (a : Task) (t : Db) (r : Result Task × Db)
    → r ≡ (ok a, t)
    → (TaskModel.is_complete a ≡ false → is_complete t ≡ false)
    → Settles task_read r
unfolding task_read TaskModel.is_complete
task-Settles a t r h partial = elim (Option-cases a.title) [
  | inl no_title ↦
      unread a t h (ap (λ x. read_filled a x a.status a.priority) no_title)
        (partial (rw no_title refl))
  | inr (title, titled) ↦ elim (Option-cases a.status) [
    | inl no_status ↦
        unread a t h (rw (titled, no_status) refl) (partial (rw (titled, no_status) refl))
    | inr (status, has_status) ↦ elim (Option-cases a.priority) [
      | inl no_priority ↦
          unread a t h (rw (titled, has_status, no_priority) refl)
            (partial (rw (titled, has_status, no_priority) refl))
      | inr (priority, has_priority) ↦ reads a _ t h (
          ap (λ x. read_filled a x a.status a.priority) titled
          ∙ ap (λ x. read_filled a (some title) x a.priority) has_status
          ∙ ap (λ x. read_filled a (some title) (some status) x) has_priority)
    ]
  ]
]

full_task-Settles :
    (a : Task) (t : Db) (r : Result Task × Db)
    → r ≡ (ok a, t)
    → TaskModel.is_complete a ≡ true
    → Settles task_read r
full_task-Settles a t r h full = task-Settles a t r h (λ partial. cc)

module _ (sql : Sql) (ilike : String → String → Bool) (s : Db) (w : IsConsistent s) where
  pub read_project-Settles : (i o : Uuid) → Settles project_read (ProjectService.get sql i o s)
  read_project-Settles i o =
      let d = w.sound.ids.projects in
      elim (Option-cases (first Projects.id_of (ProjectRepository.is_owned sql i o) s.projects)) [
        | inl missing ↦ raises _ s (Projects.get_missing sql i o s d missing)
        | inr (p, found) ↦ full_project-Settles p s _ (Projects.get_found sql i o p s d found) (
            found_complete Projects.id_of (ProjectRepository.is_owned sql i o)
              ProjectModel.is_complete p s.projects found (IsComplete-of s w.complete).projects)
      ]

  pub patch_project-Settles :
      (now : Instant) (i o : Uuid) (fields : ProjectUpdate)
      → Settles project_read (ProjectService.update sql now i o fields s)
  patch_project-Settles now i o fields =
      let d = w.sound.ids.projects in
      elim (Option-cases (first Projects.id_of (ProjectRepository.is_owned sql i o) s.projects)) [
        | inl missing ↦ raises _ s (Projects.update_missing sql now i o fields s d missing)
        | inr (p, found) ↦
            let row = ProjectModel.flushed now fields p in
            let (same, present) = ProjectRows.found_present sql i o p s found in
            let same_id : row.id ≡ i = ProjectRows.id-flushed now fields p ∙ same in
            project-Settles (ProjectModel.set_fields fields p) _ _
              (Projects.update_lem sql now i o fields p s d found)
              λ partial. incomplete_projects _ (
                any-put_row Projects.id_of is_partial row s.projects (rw (same_id, present))
                  (rw (ProjectRows.complete-flushed now fields p, partial)))
      ]

  create_lem :
      (id : Uuid) (now : Instant) (o : Uuid) (name : String) (description : Option String)
      → ProjectService.create sql id now o name description s
        ≡ ProjectService.projects_add sql (new_project id now o name description) s
  unfolding ProjectService.create
  create_lem id now o name description = refl

  pub post_project-Settles :
      (id : Uuid) (now : Instant) (o : Uuid) (name : String) (description : Option String)
      → Settles project_read (ProjectService.create sql id now o name description s)
  unfolding new_project
  post_project-Settles id now o name description =
      let p = new_project id now o name description in
      let (same, alive, whole) = ProjectRows.new_row id now o name description in
      let added = create_lem id now o name description ∙ projects_add_lem sql p s in
      elim (Bool-cases (any (at Projects.id_of id) s.projects)) [
        | inl taken ↦ raises integrity_error s (added ∙ rw (whole, same, taken))
        | inr free ↦
            full_project-Settles p (record s { projects = p ∷ s.projects }) _
              (added ∙ rw (whole, same, free)) whole
      ]

  pub read_task-Settles : (i o : Uuid) → Settles task_read (TaskService.get sql ilike i o s)
  read_task-Settles i o =
      let d = w.sound.ids in
      elim (Option-cases (first Tasks.id_of (Tasks.is_reachable i o s.projects) s.tasks)) [
        | inl missing ↦ raises _ s (Tasks.get_missing sql ilike i o s d missing)
        | inr (t, found) ↦ full_task-Settles t s _ (Tasks.get_found sql ilike i o t s d found) (
            found_complete Tasks.id_of (Tasks.is_reachable i o s.projects) TaskModel.is_complete t
              s.tasks found (IsComplete-of s w.complete).tasks)
      ]

  pub patch_task-Settles :
      (now : Instant) (i o : Uuid) (fields : TaskUpdate)
      → Settles task_read (TaskService.update sql ilike now i o fields s)
  patch_task-Settles now i o fields =
      let d = w.sound.ids in
      elim (Option-cases (first Tasks.id_of (Tasks.is_reachable i o s.projects) s.tasks)) [
        | inl missing ↦ raises _ s (Tasks.update_missing sql ilike now i o fields s d missing)
        | inr (t, found) ↦
            let row = TaskModel.flushed now fields t in
            let (same, present, alive) = TaskRows.found_present i o t s found in
            let same_id : row.id ≡ i = TaskRows.id-flushed now fields t ∙ same in
            task-Settles (TaskModel.set_fields fields t) _ _
              (update_lem sql ilike now i o fields t s d found)
              λ partial. incomplete_tasks _ (
                any-put_row Tasks.id_of is_partial_task row s.tasks (rw (same_id, present))
                  (rw (TaskRows.complete-flushed now fields t, partial)))
      ]

  pub post_task-Settles :
      (id : Uuid) (now : Instant) (o i : Uuid) (fields : TaskCreate)
      → Settles task_read (TaskService.create sql ilike id now o i fields s)
  unfolding new_task
  post_task-Settles id now o i fields =
      let d = w.sound.ids in
      elim (Option-cases (first Projects.id_of (ProjectRepository.is_owned sql i o) s.projects)) [
        | inl missing ↦
            raises ProjectService.not_found s
              (Tasks.create_missing sql ilike id now o i fields s d missing)
        | inr (p, found) ↦
            let t = new_task id now i fields in
            let (same, under, alive, whole) = TaskRows.new_row id now i fields in
            let rooted =
              any-first_pinned Projects.id_of i (ProjectRepository.is_owned sql i o) p s.projects
                (Projects.Pins-is_owned sql i o) found in
            let added =
              Tasks.create_found sql ilike id now o i fields p s d found
              ∙ tasks_add_lem sql ilike t s in
            elim (Bool-cases (any (at Tasks.id_of id) s.tasks)) [
              | inl taken ↦ raises integrity_error s (added ∙ rw (whole, same, taken))
              | inr free ↦
                  full_task-Settles t (record s { tasks = t ∷ s.tasks }) _
                    (added ∙ rw (whole, same, free, rooted)) whole
            ]
      ]
