-- ===== src/Tasks/Model.antt =====
-- `class Task` of app/tasks/models.py with its enums, and the bodies of a creation and of a PATCH.
use task_mgt_app.Base.{
  ℕ, String, Bool, true, false, not, ◌&&◌, Option, none, some, refl, is_none, ◌==◌, str_eq,
}
use task_mgt_app.Entity.{Entity, Uuid, Instant, stamped}
use task_mgt_app.Projects.Model.{set_to, leaves}
use task_mgt_app.Repository.{Model}

pub data TaskStatus : Type 0 where
  todo in_progress done : TaskStatus

-- `==` with a value of the column, where NULL equals nothing.
abbrev pub same_status : Option TaskStatus → TaskStatus → Bool
same_status (some todo) todo = true
same_status (some in_progress) in_progress = true
same_status (some done) done = true
same_status _ _ = false

pub data TaskPriority : Type 0 where
  low medium high : TaskPriority

abbrev pub same_priority : Option TaskPriority → TaskPriority → Bool
same_priority (some low) low = true
same_priority (some medium) medium = true
same_priority (some high) high = true
same_priority _ _ = false

-- An object can hold `None` where the column is NOT NULL: a flush of it fails. A date is a number.
pub record Task : Type 0 where
  pub entity : Entity
  pub open entity use *
  pub project_id : Uuid
  pub title : Option String
  pub description : Option String
  pub status : Option TaskStatus
  pub priority : Option TaskPriority
  pub due_date : Option ℕ

unfoldable pub is_complete : Task → Bool
is_complete t = not (is_none t.title) && (not (is_none t.status) && not (is_none t.priority))

abbrev pub task_model : Model Task
task_model = record {
  entity = λ t. t.entity;
  with_entity = λ e t. record t { entity = e };
  entity-with_entity = λ e t. refl;
}

-- `TaskCreate` without its project.
pub record TaskCreate : Type 0 where
  pub title : String
  pub description : Option String
  pub status : TaskStatus
  pub priority : TaskPriority
  pub due_date : Option ℕ

-- `Task(project_id=…, **fields)` as it is inserted.
unfoldable pub new_task : Uuid → Instant → Uuid → TaskCreate → Task
new_task id now project_id fields = record {
  entity = record { id = id; created_at = now; updated_at = now; deleted_at = none };
  project_id = project_id;
  title = some fields.title;
  description = fields.description;
  status = some fields.status;
  priority = some fields.priority;
  due_date = fields.due_date;
}

-- `TaskUpdate` as `model_dump(exclude_unset=True)` leaves it: `none` is a field that the request did
-- not set, `some none` one that it set to null.
pub record TaskUpdate : Type 0 where
  pub title : Option (Option String)
  pub description : Option (Option String)
  pub status : Option (Option TaskStatus)
  pub priority : Option (Option TaskPriority)
  pub due_date : Option (Option ℕ)

-- The loop of `setattr`.
unfoldable pub set_fields : TaskUpdate → Task → Task
set_fields fields t = record t {
  title = set_to fields.title t.title;
  description = set_to fields.description t.description;
  status = set_to fields.status t.status;
  priority = set_to fields.priority t.priority;
  due_date = set_to fields.due_date t.due_date;
}

-- Whether the loop of `setattr` has changed a column.
unfoldable pub is_modified : TaskUpdate → Task → Bool
is_modified fields t = not (
    leaves str_eq fields.title t.title
    && (leaves str_eq fields.description t.description
        && (leaves (λ a. same_status (some a)) fields.status t.status
            && (leaves (λ a. same_priority (some a)) fields.priority t.priority
                && leaves (λ a b. a == b) fields.due_date t.due_date))))

-- The row that the flush behind the loop leaves.
unfoldable pub flushed : Instant → TaskUpdate → Task → Task
unfolding set_fields is_modified
flushed now fields t = record (set_fields fields t) {
  entity = stamped (is_modified fields t) now t.entity;
}
