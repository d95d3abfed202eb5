-- ===== src/Tasks/Ownership.antt =====
-- Who reaches a task through `TaskService` of app/tasks/service.py.
use task_mgt_app.Base.{
  String, ◌≡◌, ap, ◌∙◌, Bool, true, false, ◌&&◌, none, some, List, filter, filter-ext, any, arith,
  ◌==◌, is_none, Option-cases, inl, inr,
}
use task_mgt_app.Db.{Db}
use task_mgt_app.Entity.{Uuid, Instant}
use task_mgt_app.Errors.{ok, err}
use task_mgt_app.Projects.Model.{Project}
use task_mgt_app.Projects.Ownership as Projects
use task_mgt_app.Projects.Repository as ProjectRepository
use task_mgt_app.Projects.Service as ProjectService
use task_mgt_app.Repository.{active}
use task_mgt_app.Repository.Lookup.{Distinct, Pins, first, one_of-filter, any-first}
use task_mgt_app.Sql.{Sql, one_of, pairs}
use task_mgt_app.Tasks.Join.{has_owner, joins, row_passes, rows_lem, task_of-one_of}
use task_mgt_app.Tasks.Model.{Task, new_task, TaskCreate, TaskUpdate}
use task_mgt_app.Tasks.Repository.{is_owned, on_project, get_by_id_for_owner, task_of}
use task_mgt_app.Tasks.Service.{not_found, tasks_add, create, get, update, delete}

abbrev pub id_of : Task → Uuid
id_of t = t.id

-- The tasks that an owner reaches under an id.
abbrev pub is_reachable : Uuid → Uuid → List Project → Task → Bool
is_reachable i o projects t = (is_none t.deleted_at && t.id == i) && has_owner o projects t

-- Every id of a project, and every id of a task, stands once.
pub record IsValid (s : Db) : Type 0 where
  pub projects : Distinct Projects.id_of s.projects
  pub tasks : Distinct id_of s.tasks

pub is_reachable_sound :
    (i o : Uuid) (projects : List Project) (t : Task)
    → is_reachable i o projects t ≡ true
    → (t.id ≡ i) × (t.deleted_at ≡ none) × (has_owner o projects t ≡ true)
is_reachable_sound i o projects t h = ground arith

pub Pins-is_reachable :
    (i o : Uuid) (projects : List Project) → Pins id_of i (is_reachable i o projects)
Pins-is_reachable i o projects t h = (is_reachable_sound i o projects t h).0

module _ (sql : Sql) (ilike : String → String → Bool) where
  abbrev keep_at : Uuid → Task → Bool
  keep_at i t = is_none t.deleted_at && t.id == i

  is_owned_lem :
      (i o : Uuid) (r : Task × Project) → is_owned sql ilike i o r ≡ row_passes o (keep_at i) r
  unfolding is_owned active
  is_owned_lem i o r = ground arith

  join_lem :
      (ts : List Task) (l : List Project) → sql.join (on_project sql ilike) ts l ≡ pairs joins ts l
  unfolding on_project
  join_lem ts l = sql.join_lem joins ts l

  get_by_id_for_owner_lem :
      (i o : Uuid) (s : Db)
      → IsValid s
      → get_by_id_for_owner sql ilike i o s.tasks s.projects
        ≡ ok (first id_of (is_reachable i o s.projects) s.tasks)
  unfolding get_by_id_for_owner
  get_by_id_for_owner_lem i o s v =
      ap task_of (
        sql.scalar_one_or_none_lem _
        ∙ ap one_of (
            sql.select_lem (is_owned sql ilike i o) _
            ∙ ap (filter (is_owned sql ilike i o)) (join_lem s.tasks s.projects)
            ∙ filter-ext _ _ (pairs joins s.tasks s.projects) (is_owned_lem i o)))
      ∙ task_of-one_of _
      ∙ ap one_of (rows_lem o (keep_at i) s.tasks s.projects v.projects)
      ∙ one_of-filter id_of i (is_reachable i o s.projects) s.tasks
          (Pins-is_reachable i o s.projects) v.tasks

  pub get_missing :
      (i o : Uuid) (s : Db)
      → IsValid s
      → first id_of (is_reachable i o s.projects) s.tasks ≡ none
      → get sql ilike i o s ≡ (err not_found, s)
  unfolding get
  get_missing i o s v h = ground (arith, get_by_id_for_owner_lem i o s v)

  pub get_found :
      (i o : Uuid) (t : Task) (s : Db)
      → IsValid s
      → first id_of (is_reachable i o s.projects) s.tasks ≡ some t
      → get sql ilike i o s ≡ (ok t, s)
  unfolding get
  get_found i o t s v h = ground (arith, get_by_id_for_owner_lem i o s v)

  pub update_missing :
      (now : Instant) (i o : Uuid) (fields : TaskUpdate) (s : Db)
      → IsValid s
      → first id_of (is_reachable i o s.projects) s.tasks ≡ none
      → update sql ilike now i o fields s ≡ (err not_found, s)
  unfolding update
  update_missing now i o fields s v h = ground (arith, get_missing i o s v h)

  pub delete_missing :
      (now : Instant) (i o : Uuid) (s : Db)
      → IsValid s
      → first id_of (is_reachable i o s.projects) s.tasks ≡ none
      → delete sql ilike now i o s ≡ (err not_found, s)
  unfolding delete
  delete_missing now i o s v h = ground (arith, get_missing i o s v h)

  -- In tables in which ids stand once, and that have under an id no live task in a live project of
  -- a user, `get`, `update` and `delete` of TaskService all answer "Task not found." for that id
  -- and user, and change nothing.
  pub task_hidden :
      (i o : Uuid) (fields : TaskUpdate) (now : Instant) (s : Db)
      → IsValid s
      → any (is_reachable i o s.projects) s.tasks ≡ false
      → (get sql ilike i o s ≡ (err not_found, s))
        × (update sql ilike now i o fields s ≡ (err not_found, s))
        × (delete sql ilike now i o s ≡ (err not_found, s))
  task_hidden i o fields now s v h =
      let none_found = any-first id_of (is_reachable i o s.projects) s.tasks h in
      (
        get_missing i o s v none_found,
        update_missing now i o fields s v none_found,
        delete_missing now i o s v none_found,
      )

  pub first-get :
      (i o : Uuid) (t : Task) (s : Db)
      → IsValid s
      → (get sql ilike i o s).0 ≡ ok t
      → first id_of (is_reachable i o s.projects) s.tasks ≡ some t
  first-get i o t s v h = elim (Option-cases (first id_of (is_reachable i o s.projects) s.tasks)) [
    | inl missing ↦ absurd (cc (h, get_missing i o s v missing))
    | inr (u, found) ↦ cc (h, found, get_found i o u s v found)
  ]

  pub create_missing :
      (id : Uuid) (now : Instant) (o i : Uuid) (fields : TaskCreate) (s : Db)
      → IsValid s
      → first Projects.id_of (ProjectRepository.is_owned sql i o) s.projects ≡ none
      → create sql ilike id now o i fields s ≡ (err ProjectService.not_found, s)
  unfolding create
  create_missing id now o i fields s v h =
      ground (arith, Projects.get_by_id_for_owner_lem sql i o s.projects v.projects)

  pub create_found :
      (id : Uuid) (now : Instant) (o i : Uuid) (fields : TaskCreate) (p : Project) (s : Db)
      → IsValid s
      → first Projects.id_of (ProjectRepository.is_owned sql i o) s.projects ≡ some p
      → create sql ilike id now o i fields s ≡ tasks_add sql ilike (new_task id now i fields) s
  unfolding create
  create_found id now o i fields p s v h =
      ground (arith, Projects.get_by_id_for_owner_lem sql i o s.projects v.projects)

  -- In tables in which ids stand once, and that have no live project of a user under an id,
  -- `create` of a task in that project answers "Project not found.", and changes nothing.
  pub create_refused :
      (id : Uuid) (now : Instant) (o i : Uuid) (fields : TaskCreate) (s : Db)
      → IsValid s
      → any (ProjectRepository.is_owned sql i o) s.projects ≡ false
      → create sql ilike id now o i fields s ≡ (err ProjectService.not_found, s)
  create_refused id now o i fields s v h =
      create_missing id now o i fields s v
        (any-first Projects.id_of (ProjectRepository.is_owned sql i o) s.projects h)
