-- ===== src/Tests/Store/Catalog.antt =====
-- A sequence of requests on projects and tasks.
use task_mgt_app.Base.{◌≡◌, none, some, List, [], ◌∷◌}
use task_mgt_app.Catalog.{
  Request, post_project, patch_project, remove_project, post_task, read_task, patch_task,
  remove_task, promises,
}
use task_mgt_app.Catalog.Refinement.{refines}
use task_mgt_app.Catalog.Serve.{answers}
use task_mgt_app.Catalog.View.{view}
use task_mgt_app.Projects.Model.{ProjectUpdate}
use task_mgt_app.Tasks.Model.{TaskCreate, TaskUpdate, todo, done, low}
use task_mgt_app.Tests.Sql.{sql}
use task_mgt_app.Tests.Store.{store, like, store-IsConsistent}

abbrev chore : TaskCreate
chore = record { title = "mow"; description = none; status = todo; priority = low; due_date = none }

abbrev unnamed : ProjectUpdate
unnamed = record { name = some none; description = none }

abbrev finished : TaskUpdate
finished = record {
  title = none;
  description = none;
  status = some (some done);
  priority = none;
  due_date = none;
}

-- ann works in her project and deletes it; then her task is gone, and bob's is not.
abbrev day : List Request
day =
    post_project 3 40 5 "boat" none
    ∷ post_task 104 41 5 3 chore
    ∷ patch_task 60 104 5 finished
    ∷ patch_project 60 3 5 unnamed
    ∷ post_task 104 42 5 1 chore
    ∷ remove_project 43 3 5
    ∷ read_task 104 5
    ∷ remove_task 44 102 5
    ∷ read_task 102 6
    ∷ []

refines_example : answers sql like day store ≡ promises day (view store)
refines_example = refines sql like day store store-IsConsistent
