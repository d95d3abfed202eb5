-- ===== src/Catalog/Refinement.antt =====
-- Any sequence of requests is answered as the catalog promises.
use task_mgt_app.Base.{String, ◌≡◌, refl, Bool, List, [], ◌∷◌, arith}
use task_mgt_app.Catalog.{
  Catalog, Request, post_project, read_project, patch_project, remove_project, post_task, read_task,
  patch_task, remove_task, promises,
}
use task_mgt_app.Catalog.Projects.{
  post_project-Simulates, read_project-Simulates, patch_project-Simulates, remove_project-Simulates,
}
use task_mgt_app.Catalog.Serve.{serve, answers}
use task_mgt_app.Catalog.Simulation.{Simulates}
use task_mgt_app.Catalog.Tasks.{
  post_task-Simulates, read_task-Simulates, patch_task-Simulates, remove_task-Simulates,
}
use task_mgt_app.Catalog.View.{Represents, view, Represents-view}
use task_mgt_app.Consistency.Transactions.{
  IsConsistent, Step-IsConsistent, get_db-IsConsistent, creates_project, updates_project,
  deletes_project, creates_task, updates_task, deletes_task,
}
use task_mgt_app.Db.{Db}
use task_mgt_app.Entity.{Uuid}
use task_mgt_app.Projects.Service as ProjectService
use task_mgt_app.Sql.{Sql}
use task_mgt_app.Tasks.Service as TaskService

module _ (sql : Sql) (ilike : String → String → Bool) where
  pub serve-Simulates :
      (r : Request) (s : Db) (c : Catalog)
      → IsConsistent s
      → Represents s c
      → Simulates sql ilike r s c
  serve-Simulates (post_project id now o name description) =
      post_project-Simulates sql ilike id now o name description
  serve-Simulates (read_project i o) = read_project-Simulates sql ilike i o
  serve-Simulates (patch_project now i o fields) = patch_project-Simulates sql ilike now i o fields
  serve-Simulates (remove_project now i o) = remove_project-Simulates sql ilike now i o
  serve-Simulates (post_task id now o i fields) = post_task-Simulates sql ilike id now o i fields
  serve-Simulates (read_task i o) = read_task-Simulates sql ilike i o
  serve-Simulates (patch_task now i o fields) = patch_task-Simulates sql ilike now i o fields
  serve-Simulates (remove_task now i o) = remove_task-Simulates sql ilike now i o

  project_kept : (i o : Uuid) (s : Db) → (ProjectService.get sql i o s).1 ≡ s
  unfolding ProjectService.get
  project_kept i o s = ground arith

  task_kept : (i o : Uuid) (s : Db) → (TaskService.get sql ilike i o s).1 ≡ s
  unfolding TaskService.get
  task_kept i o s = ground arith

  serve-IsConsistent :
      (r : Request) (s : Db) → IsConsistent s → IsConsistent (serve sql ilike r s).1
  unfolding serve
  serve-IsConsistent (post_project id now o name description) s =
      Step-IsConsistent sql ilike (creates_project id now o name description s)
  serve-IsConsistent (read_project i o) s =
      get_db-IsConsistent _ s (λ t h. rw (project_kept i o t) h)
  serve-IsConsistent (patch_project now i o fields) s =
      Step-IsConsistent sql ilike (updates_project now i o fields s)
  serve-IsConsistent (remove_project now i o) s =
      Step-IsConsistent sql ilike (deletes_project now i o s)
  serve-IsConsistent (post_task id now o i fields) s =
      Step-IsConsistent sql ilike (creates_task id now o i fields s)
  serve-IsConsistent (read_task i o) s = get_db-IsConsistent _ s (λ t h. rw (task_kept i o t) h)
  serve-IsConsistent (patch_task now i o fields) s =
      Step-IsConsistent sql ilike (updates_task now i o fields s)
  serve-IsConsistent (remove_task now i o) s = Step-IsConsistent sql ilike (deletes_task now i o s)

  answers-Represents :
      (rs : List Request) (s : Db) (c : Catalog)
      → IsConsistent s
      → Represents s c
      → answers sql ilike rs s ≡ promises rs c
  unfolding answers promises
  answers-Represents [] s c w v = refl
  answers-Represents (r ∷ rs) s c w v =
      let step = serve-Simulates r s c w v in
      rw (step.same, answers-Represents rs _ _ (serve-IsConsistent r s w) step.represents)

  -- Let the tables of projects and tasks be consistent: every id stands once, every task has a row
  -- for its project, and no NOT NULL column is empty. Any sequence of creations, reads, updates and
  -- deletions of projects and tasks by any users, each in a transaction of `get_db`, gets exactly
  -- the answers that a catalog promises which knows no tables, deletion marks or joins: at most one
  -- project and one task under an id, and the ids that are used up. There a user has the projects
  -- that the user created and the tasks in them, a deletion of a project takes its tasks along, a
  -- change that empties a NOT NULL column and a creation under a used id are refused as a whole, a
  -- change of a field puts its time into `updated_at` for later answers, and everything else under
  -- an id is not found.
  pub refines :
      (rs : List Request) (s : Db) → IsConsistent s → answers sql ilike rs s ≡ promises rs (view s)
  refines rs s w = answers-Represents rs s (view s) w (Represents-view s)
