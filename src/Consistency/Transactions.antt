-- ===== src/Consistency/Transactions.antt =====
-- Requests in the transaction of `get_db`: what is in the tables behind any sequence of them.
use task_mgt_app.Base.{String, ◌≡◌, Bool, true, Option, Bool-cases, inl, inr}
use task_mgt_app.Consistency.Requests.{
  create_project-IsSound, update_project-IsSound, delete_project-IsSound, create_task-IsSound,
  update_task-IsSound, delete_task-IsSound,
}
use task_mgt_app.Consistency.Rows.{IsSound}
use task_mgt_app.Db.{Db, Session, is_complete, commit, get_db}
use task_mgt_app.Entity.{Uuid, Instant}
use task_mgt_app.Errors.{Result, ok, err}
use task_mgt_app.Projects.Model.{ProjectUpdate}
use task_mgt_app.Projects.Service as ProjectService
use task_mgt_app.Sql.{Sql}
use task_mgt_app.Tasks.Model.{TaskCreate, TaskUpdate}
use task_mgt_app.Tasks.Service as TaskService

-- Sound tables in which every NOT NULL column has a value.
pub record IsConsistent (s : Db) : Type 0 where
  pub sound : IsSound s
  pub complete : is_complete s ≡ true

commit-IsConsistent :
    {A : Type 0} (before : Db) (r : Result A × Db)
    → IsConsistent before
    → IsSound r.1
    → IsConsistent (commit before r).1
unfolding commit
commit-IsConsistent before (err e, s) v h = v
commit-IsConsistent before (ok a, s) v h = elim (Bool-cases (is_complete s)) [
  | inl flushed ↦ rw flushed (record { sound = h; complete = flushed })
  | inr refused ↦ rw refused v
]

pub get_db-IsConsistent :
    {A : Type 0} (request : Session A) (s : Db)
    → ((t : Db) → IsSound t → IsSound (request t).1)
    → IsConsistent s
    → IsConsistent (get_db request s).1
unfolding get_db
get_db-IsConsistent request s keeps v = commit-IsConsistent s (request s) v (keeps s v.sound)

module _ (sql : Sql) (ilike : String → String → Bool) where
  -- One request that writes, with any arguments and random values.
  pub data Step : Db → Db → Type 0 where
    creates_project :
        (id : Uuid) (now : Instant) (o : Uuid) (name : String) (description : Option String)
        (s : Db)
        → Step s (get_db (ProjectService.create sql id now o name description) s).1
    updates_project :
        (now : Instant) (i o : Uuid) (fields : ProjectUpdate) (s : Db)
        → Step s (get_db (ProjectService.update sql now i o fields) s).1
    deletes_project :
        (now : Instant) (i o : Uuid) (s : Db)
        → Step s (get_db (ProjectService.delete sql now i o) s).1
    creates_task :
        (id : Uuid) (now : Instant) (o i : Uuid) (fields : TaskCreate) (s : Db)
        → Step s (get_db (TaskService.create sql ilike id now o i fields) s).1
    updates_task :
        (now : Instant) (i o : Uuid) (fields : TaskUpdate) (s : Db)
        → Step s (get_db (TaskService.update sql ilike now i o fields) s).1
    deletes_task :
        (now : Instant) (i o : Uuid) (s : Db)
        → Step s (get_db (TaskService.delete sql ilike now i o) s).1

  pub data Reach (s : Db) : Db → Type 0 where
    here : Reach s s
    next : {t u : Db} → Reach s t → Step t u → Reach s u

  pub Step-IsConsistent : {s t : Db} → Step s t → IsConsistent s → IsConsistent t
  Step-IsConsistent (creates_project id now o name description s) =
      get_db-IsConsistent _ s (create_project-IsSound sql id now o name description)
  Step-IsConsistent (updates_project now i o fields s) =
      get_db-IsConsistent _ s (update_project-IsSound sql now i o fields)
  Step-IsConsistent (deletes_project now i o s) =
      get_db-IsConsistent _ s (delete_project-IsSound sql now i o)
  Step-IsConsistent (creates_task id now o i fields s) =
      get_db-IsConsistent _ s (create_task-IsSound sql ilike id now o i fields)
  Step-IsConsistent (updates_task now i o fields s) =
      get_db-IsConsistent _ s (update_task-IsSound sql ilike now i o fields)
  Step-IsConsistent (deletes_task now i o s) =
      get_db-IsConsistent _ s (delete_task-IsSound sql ilike now i o)

  -- If in the tables of projects and tasks every id stands once, every task has a row for its
  -- project, and no NOT NULL column is empty, then that holds behind any sequence of creations,
  -- updates and deletions of projects and tasks by any users, each in a transaction of `get_db`
  -- that commits or rolls back.
  pub Reach-IsConsistent : {s t : Db} → IsConsistent s → Reach s t → IsConsistent t
  Reach-IsConsistent v here = v
  Reach-IsConsistent v (next r step) = Step-IsConsistent step (Reach-IsConsistent v r)
