-- ===== src/Catalog.antt =====
-- What the services of projects and tasks promise (app/projects/service.py, app/tasks/service.py),
-- said without tables: at most one live project and one live task under an id, and a set of ids
-- that are used up. Deletion marks, rows and their order are forgotten.
pub mod View
pub mod Serve
pub mod Commit
pub mod Simulation
pub mod Projects
pub mod Tasks
pub mod Refinement
use task_mgt_app.Base.{String, Bool, ◌||◌, Option, none, some, List, [], ◌∷◌, ◌==◌, if◌then◌else◌}
use task_mgt_app.Entity.{Uuid, Instant}
use task_mgt_app.Errors.{
  Exception, Result, ok, err, integrity_error, app, project_not_found, task_not_found,
}
use task_mgt_app.Projects.Model.{Project, ProjectUpdate, new_project}
use task_mgt_app.Projects.Model as ProjectModel
use task_mgt_app.Tasks.Model.{Task, TaskCreate, TaskUpdate, new_task}
use task_mgt_app.Tasks.Model as TaskModel

pub record Catalog : Type 0 where
  pub project_at : Uuid → Option Project
  pub project_used : Uuid → Bool
  pub task_at : Uuid → Option Task
  pub task_used : Uuid → Bool

-- A call of one of the services, in its own transaction, with its random and clock values.
pub data Request : Type 0 where
  post_project : Uuid → Instant → Uuid → String → Option String → Request
  read_project : Uuid → Uuid → Request
  patch_project : Instant → Uuid → Uuid → ProjectUpdate → Request
  remove_project : Instant → Uuid → Uuid → Request
  post_task : Uuid → Instant → Uuid → Uuid → TaskCreate → Request
  read_task : Uuid → Uuid → Request
  patch_task : Instant → Uuid → Uuid → TaskUpdate → Request
  remove_task : Instant → Uuid → Uuid → Request

pub data Answer : Type 0 where
  a_project : Result Project → Answer
  a_task : Result Task → Answer
  nothing : Result (Unit {0}) → Answer

-- A function changed at one id.
abbrev pub changed {ℓ} : {A : Type ℓ} → Uuid → A → (Uuid → A) → Uuid → A
changed i a f j = if i == j then a else f j

abbrev pub if_owner : Uuid → Option Project → Option Project
if_owner o none = none
if_owner o (some p) = if p.owner_id == o then some p else none

-- The project that a user has under an id.
abbrev pub owned : Uuid → Uuid → Catalog → Option Project
owned i o c = if_owner o (c.project_at i)

abbrev pub only_if : Option Project → Task → Option Task
only_if none t = none
only_if (some _) t = some t

abbrev pub if_owned : Catalog → Uuid → Option Task → Option Task
if_owned c o none = none
if_owned c o (some t) = only_if (owned t.project_id o c) t

-- The task that a user has under an id: one in a project of the user's.
abbrev pub owned_task : Uuid → Uuid → Catalog → Option Task
owned_task i o c = if_owned c o (c.task_at i)

abbrev pub unless_in : Uuid → Option Task → Option Task
unless_in i none = none
unless_in i (some t) = if t.project_id == i then none else some t

abbrev pub no_project : Exception
no_project = app (project_not_found "Project not found.")

abbrev pub no_task : Exception
no_task = app (task_not_found "Task not found.")

abbrev pub found {ℓ} : {A : Type ℓ} → Exception → Option A → Result A
found e none = err e
found e (some a) = ok a

abbrev pub cases {ℓ m} : {A : Type ℓ} {B : Type m} → Option A → B → (A → B) → B
cases none b f = b
cases (some a) b f = f a

module _ (c : Catalog) where
  unfoldable pub put_project : Uuid → Project → Catalog
  put_project i p = record c { project_at = changed i (some p) c.project_at }

  unfoldable pub put_task : Uuid → Task → Catalog
  put_task i t = record c { task_at = changed i (some t) c.task_at }

  -- The tasks of a deleted project go with it.
  unfoldable pub drop_project : Uuid → Catalog
  drop_project i = record c {
    project_at = changed i none c.project_at;
    task_at = λ j. unless_in i (c.task_at j);
  }

  unfoldable pub drop_task : Uuid → Catalog
  drop_task i = record c { task_at = changed i none c.task_at }

  unfoldable pub add_project : Uuid → Project → Catalog
  add_project i p = record c {
    project_at = changed i (some p) c.project_at;
    project_used = λ j. i == j || c.project_used j;
  }

  unfoldable pub add_task : Uuid → Task → Catalog
  add_task i t = record c {
    task_at = changed i (some t) c.task_at;
    task_used = λ j. i == j || c.task_used j;
  }

  -- A change that leaves a NOT NULL column empty is refused as a whole.
  abbrev pub replace_project : Uuid → Project → Project → Answer × Catalog
  replace_project i p row =
      if ProjectModel.is_complete p
      then (a_project (ok p), put_project i row)
      else (a_project (err integrity_error), c)

  abbrev pub replace_task : Uuid → Task → Task → Answer × Catalog
  replace_task i t row =
      if TaskModel.is_complete t
      then (a_task (ok t), put_task i row)
      else (a_task (err integrity_error), c)

  abbrev pub enter_project : Uuid → Project → Answer × Catalog
  enter_project id p =
      if c.project_used id
      then (a_project (err integrity_error), c)
      else (a_project (ok p), add_project id p)

  abbrev pub enter_task : Uuid → Task → Answer × Catalog
  enter_task id t =
      if c.task_used id then (a_task (err integrity_error), c) else (a_task (ok t), add_task id t)

  -- The answer that is promised, and the catalog behind it.
  unfoldable pub promise : Request → Answer × Catalog
  promise (post_project id now o name description) =
      enter_project id (new_project id now o name description)
  promise (read_project i o) = (a_project (found no_project (owned i o c)), c)
  promise (patch_project now i o fields) =
      cases (owned i o c) ((a_project (err no_project), c)) (λ p.
        replace_project i (ProjectModel.set_fields fields p) (ProjectModel.flushed now fields p))
  promise (remove_project now i o) =
      cases (owned i o c) ((nothing (err no_project), c)) (λ p. (nothing (ok tt), drop_project i))
  promise (post_task id now o i fields) =
      cases (owned i o c) ((a_task (err no_project), c))
        (λ p. enter_task id (new_task id now i fields))
  promise (read_task i o) = (a_task (found no_task (owned_task i o c)), c)
  promise (patch_task now i o fields) =
      cases (owned_task i o c) ((a_task (err no_task), c))
        (λ t. replace_task i (TaskModel.set_fields fields t) (TaskModel.flushed now fields t))
  promise (remove_task now i o) =
      cases (owned_task i o c) ((nothing (err no_task), c)) (λ t. (nothing (ok tt), drop_task i))

-- The promised answers of a sequence of requests.
unfoldable pub promises : List Request → Catalog → List Answer
promises [] c = []
promises (r ∷ rs) c = let (a, c') = promise c r in a ∷ promises rs c'
