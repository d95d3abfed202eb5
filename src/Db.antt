-- ===== src/Db.antt =====
-- The session of a request, over the tables of projects and tasks: actions that return or raise,
-- and `get_db` of app/core/db.py, which commits or rolls back what they wrote.
use task_mgt_app.Base.{Bool, ◌&&◌, not, any, Option, none, some, List, if◌then◌else◌}
use task_mgt_app.Errors.{Exception, Result, ok, err, integrity_error}
use task_mgt_app.Projects.Model.{Project}
use task_mgt_app.Projects.Model as ProjectModel
use task_mgt_app.Tasks.Model.{Task}
use task_mgt_app.Tasks.Model as TaskModel

pub record Db : Type 0 where
  pub projects : List Project
  pub tasks : List Task

abbrev pub Session : Type 0 → Type 0
Session A = Db → Result A × Db

infixl 5 ◌>>=◌ ◌>>◌
abbrev pub ◌>>=◌ : {A B : Type 0} → Session A → (A → Session B) → Session B
◌>>=◌ m f s = let (r, s') = m s in elim r [ ok a ↦ f a s' | err e ↦ (err e, s') ]

abbrev pub ◌>>◌ : {A B : Type 0} → Session A → Session B → Session B
m >> k = m >>= λ _. k

abbrev pub pure : {A : Type 0} → A → Session A
pure a s = (ok a, s)

abbrev pub lift : {A : Type 0} → Result A → Session A
lift r s = (r, s)

abbrev pub raise : {A : Type 0} → Exception → Session A
raise e s = (err e, s)

abbrev pub or_raise : {A : Type 0} → Option A → Exception → Session A
or_raise none e = raise e
or_raise (some a) e = pure a

abbrev pub on_projects : (List Project → List Project) → Session (Unit {0})
on_projects f s = (ok tt, record s { projects = f s.projects })

abbrev pub on_tasks : (List Task → List Task) → Session (Unit {0})
on_tasks f s = (ok tt, record s { tasks = f s.tasks })

-- Whether the NOT NULL columns let the rows of the session be flushed.
unfoldable pub is_complete : Db → Bool
is_complete s =
    not (any (λ p. not (ProjectModel.is_complete p)) s.projects)
    && not (any (λ t. not (TaskModel.is_complete t)) s.tasks)

-- `session.commit()`, of what the request left in the session, over what was there before it.
unfoldable pub commit : {A : Type 0} → Db → Result A × Db → Result A × Db
unfolding is_complete
commit before (ok a, s) = if is_complete s then (ok a, s) else (err integrity_error, before)
commit before (err e, s) = (err e, before)

unfoldable pub get_db : {A : Type 0} → Session A → Session A
unfolding commit
get_db request s = commit s (request s)
