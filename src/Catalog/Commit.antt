-- ===== src/Catalog/Commit.antt =====
-- When the transaction of a request commits, in tables without an empty NOT NULL column.
use task_mgt_app.Base.{◌≡◌, refl, Bool, true, false, not, List, [], ◌∷◌, any, arith, some}
use task_mgt_app.Db.{Db, Session, is_complete, commit, get_db}
use task_mgt_app.Entity.{Uuid, Instant, mark_deleted}
use task_mgt_app.Errors.{Exception, ok, err, integrity_error}
use task_mgt_app.Projects.Cascade.{swept}
use task_mgt_app.Projects.Model.{Project}
use task_mgt_app.Projects.Model as ProjectModel
use task_mgt_app.Repository.Lookup.{first, first-none_other}
use task_mgt_app.Tasks.Model.{Task}
use task_mgt_app.Tasks.Model as TaskModel

module _ {A : Type 0} (request : Session A) (s : Db) where
  pub get_db_ok :
      (a : A) (s' : Db)
      → request s ≡ (ok a, s')
      → is_complete s' ≡ true
      → get_db request s ≡ (ok a, s')
  unfolding get_db commit
  get_db_ok a s' h k = rw (h, k)

  pub get_db_refused :
      (a : A) (s' : Db)
      → request s ≡ (ok a, s')
      → is_complete s' ≡ false
      → get_db request s ≡ (err integrity_error, s)
  unfolding get_db commit
  get_db_refused a s' h k = rw (h, k)

  pub get_db_err :
      (e : Exception) (s' : Db) → request s ≡ (err e, s') → get_db request s ≡ (err e, s)
  unfolding get_db commit
  get_db_err e s' h = rw h

abbrev pub is_partial : Project → Bool
is_partial p = not (ProjectModel.is_complete p)

abbrev pub is_partial_task : Task → Bool
is_partial_task t = not (TaskModel.is_complete t)

pub record IsComplete (s : Db) : Type 0 where
  pub projects : any is_partial s.projects ≡ false
  pub tasks : any is_partial_task s.tasks ≡ false

pub IsComplete-of : (s : Db) → is_complete s ≡ true → IsComplete s
unfolding is_complete
IsComplete-of s h = record { projects = ground arith; tasks = ground arith }

pub IsComplete-to : (s : Db) → IsComplete s → is_complete s ≡ true
unfolding is_complete
IsComplete-to s v = rw (v.projects, v.tasks)

pub incomplete_projects : (s : Db) → any is_partial s.projects ≡ true → is_complete s ≡ false
unfolding is_complete
incomplete_projects s h = rw h

pub incomplete_tasks : (s : Db) → any is_partial_task s.tasks ≡ true → is_complete s ≡ false
unfolding is_complete
incomplete_tasks s h = ground arith

pub swept_complete :
    (now : Instant) (i : Uuid) (l : List Task)
    → any is_partial_task (swept now i l) ≡ any is_partial_task l
unfolding mark_deleted TaskModel.is_complete
swept_complete now i [] = refl
swept_complete now i (t ∷ l) = ground (arith, swept_complete now i l)

-- Every row of such tables is complete, the one that a lookup finds too.
pub found_complete :
    {A : Type 0} (id : A → Uuid) (p complete : A → Bool) (a : A) (l : List A)
    → first id p l ≡ some a
    → any (λ b. not (complete b)) l ≡ false
    → complete a ≡ true
found_complete id p complete a l h k =
    let q : not (complete a) ≡ false = first-none_other id p (λ b. not (complete b)) a l h k in
    ground arith
