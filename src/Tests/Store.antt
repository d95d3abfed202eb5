-- ===== src/Tests/Store.antt =====
-- Tables of projects and tasks for the examples: ann (5) has project 1, bob (6) has project 2.
mod Requests
mod Catalog
use task_mgt_app.Base.{ℕ, String, Bool, true, refl, none, some, [], ◌∷◌, ◌≡◌}
use task_mgt_app.Consistency.Rows.{IsSound}
use task_mgt_app.Consistency.Transactions.{IsConsistent}
use task_mgt_app.Db.{Db, is_complete}
use task_mgt_app.Entity.{Uuid, Entity}
use task_mgt_app.Projects.Model.{Project}
use task_mgt_app.Projects.Model as ProjectModel
use task_mgt_app.Tasks.Model.{Task, todo, low}
use task_mgt_app.Tasks.Model as TaskModel
use task_mgt_app.Tasks.Ownership.{IsValid}

abbrev pub row : Uuid → ℕ → Entity
row id created_at = record {
  id = id;
  created_at = created_at;
  updated_at = created_at;
  deleted_at = none;
}

abbrev pub anns : Project
anns = record { entity = row 1 10; owner_id = 5; name = some "house"; description = none }

abbrev pub bobs : Project
bobs = record { entity = row 2 20; owner_id = 6; name = some "garden"; description = none }

abbrev pub task : Uuid → Uuid → Task
task id project_id = record {
  entity = row id 30;
  project_id = project_id;
  title = some "paint";
  description = none;
  status = some todo;
  priority = some low;
  due_date = none;
}

abbrev pub store : Db
store = record { projects = anns ∷ bobs ∷ []; tasks = task 101 1 ∷ task 102 2 ∷ task 103 1 ∷ [] }

abbrev pub like : String → String → Bool
like text pattern = true

pub store-IsValid : IsValid store
store-IsValid = record { projects = (refl, (refl, tt)); tasks = (refl, (refl, (refl, tt))) }

pub store-IsSound : IsSound store
store-IsSound = record { ids = store-IsValid; rooted = refl }

pub store-IsConsistent : IsConsistent store
unfolding is_complete ProjectModel.is_complete TaskModel.is_complete
store-IsConsistent = record { sound = store-IsSound; complete = refl }
