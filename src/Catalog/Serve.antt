-- ===== src/Catalog/Serve.antt =====
-- The requests of a catalog, as the services answer them, each in a transaction of `get_db`.
use task_mgt_app.Base.{String, Bool, List, [], ◌∷◌}
use task_mgt_app.Catalog.{
  Request, post_project, read_project, patch_project, remove_project, post_task, read_task,
  patch_task, remove_task, Answer, a_project, a_task, nothing,
}
use task_mgt_app.Db.{Db, get_db}
use task_mgt_app.Errors.{Result}
use task_mgt_app.Projects.Service as ProjectService
use task_mgt_app.Sql.{Sql}
use task_mgt_app.Tasks.Service as TaskService

abbrev pub answer_with : {A : Type 0} → (Result A → Answer) → Result A × Db → Answer × Db
answer_with f (r, s) = (f r, s)

module _ (sql : Sql) (ilike : String → String → Bool) where
  unfoldable pub serve : Request → Db → Answer × Db
  serve (post_project id now o name description) s =
      answer_with a_project (get_db (ProjectService.create sql id now o name description) s)
  serve (read_project i o) s = answer_with a_project (get_db (ProjectService.get sql i o) s)
  serve (patch_project now i o fields) s =
      answer_with a_project (get_db (ProjectService.update sql now i o fields) s)
  serve (remove_project now i o) s =
      answer_with nothing (get_db (ProjectService.delete sql now i o) s)
  serve (post_task id now o i fields) s =
      answer_with a_task (get_db (TaskService.create sql ilike id now o i fields) s)
  serve (read_task i o) s = answer_with a_task (get_db (TaskService.get sql ilike i o) s)
  serve (patch_task now i o fields) s =
      answer_with a_task (get_db (TaskService.update sql ilike now i o fields) s)
  serve (remove_task now i o) s =
      answer_with nothing (get_db (TaskService.delete sql ilike now i o) s)

  -- The answers to a sequence of requests.
  unfoldable pub answers : List Request → Db → List Answer
  answers [] s = []
  answers (r ∷ rs) s = let (a, s') = serve r s in a ∷ answers rs s'
