-- ===== src/Tests/Store/Requests.antt =====
-- Examples for the requests on projects and tasks.
use task_mgt_app.Base.{
  ◌≡◌, refl, Bool, false, ap, none, some, List, [], ◌∷◌, arith, length, filter, any, ◌==◌,
}
use task_mgt_app.Consistency.Transactions.{
  IsConsistent, here, next, deletes_project, creates_task, Reach-IsConsistent,
}
use task_mgt_app.Db.{get_db}
use task_mgt_app.Errors.{ok, err, response_validation_error}
use task_mgt_app.Http.NullName.{null_name_refused}
use task_mgt_app.Http.Projects.{update_project}
use task_mgt_app.Projects.Cascade.{is_live_in, is_elsewhere, cascade}
use task_mgt_app.Projects.Listing as ProjectListing
use task_mgt_app.Projects.Model.{Project, ProjectUpdate, set_fields, flushed}
use task_mgt_app.Projects.Ownership as Projects
use task_mgt_app.Projects.Repository as ProjectRepository
use task_mgt_app.Projects.Service as ProjectService
use task_mgt_app.Repository.{active}
use task_mgt_app.Sql.{IsDescending}
use task_mgt_app.Tasks.Changes.{task_deleted}
use task_mgt_app.Tasks.Listing as TaskListing
use task_mgt_app.Tasks.Model.{Task, TaskCreate, TaskUpdate, done, todo, low}
use task_mgt_app.Tasks.Model as TaskModel
use task_mgt_app.Tasks.Ownership.{task_hidden, create_refused, is_reachable}
use task_mgt_app.Tasks.Ownership as Tasks
use task_mgt_app.Tasks.Repository.{TaskFilters}
use task_mgt_app.Tasks.Service as TaskService
use task_mgt_app.Repository.Lookup.{put}
use task_mgt_app.Tests.Auth.{ann}
use task_mgt_app.Tests.Sql.{sql}
use task_mgt_app.Tests.Store.{
  anns, row, task, store, like, store-IsValid, store-IsSound, store-IsConsistent,
}

abbrev renamed : ProjectUpdate
renamed = record { name = some (some "flat"); description = none }

abbrev unnamed : ProjectUpdate
unnamed = record { name = some none; description = none }

abbrev finished : TaskUpdate
finished = record {
  title = none;
  description = none;
  status = some (some done);
  priority = none;
  due_date = none;
}

abbrev chore : TaskCreate
chore = record {
  title = "sweep";
  description = none;
  status = todo;
  priority = low;
  due_date = none;
}

bobs_not_anns : any (Projects.is_own sql 2 5) store.projects ≡ false
bobs_not_anns = refl

hidden_example :
    (ProjectService.get sql 2 5 store ≡ (err ProjectService.not_found, store))
    × (ProjectService.update sql 50 2 5 renamed store ≡ (err ProjectService.not_found, store))
    × (ProjectService.delete sql 50 2 5 store ≡ (err ProjectService.not_found, store))
hidden_example = Projects.hidden sql 2 5 renamed 50 store store-IsValid.projects bobs_not_anns

anns_own : (ProjectService.get sql 1 5 store).0 ≡ ok anns
unfolding ProjectService.get ProjectRepository.get_by_id_for_owner ProjectRepository.is_owned active
anns_own = refl

cascade_example :
    let after = (ProjectService.delete sql 50 1 5 store).1 in
    ((ProjectService.delete sql 50 1 5 store).0 ≡ ok tt)
    × (ProjectService.get sql 1 5 after ≡ (err ProjectService.not_found, after))
    × ((ProjectService.get sql 2 5 after).0 ≡ (ProjectService.get sql 2 5 store).0)
    × (any (is_live_in 1) after.tasks ≡ false)
    × (filter (is_elsewhere 1) after.tasks ≡ filter (is_elsewhere 1) store.tasks)
cascade_example = cascade sql 50 1 5 2 5 anns store store-IsValid.projects anns_own refl

null_name_refused_example :
    (ProjectService.update sql 50 1 5 unnamed store ≡ (
      ok (set_fields unnamed anns),
      record store { projects = put Projects.id_of (flushed 50 unnamed anns) store.projects },
    ))
    × (get_db (update_project sql ann 50 1 unnamed) store ≡ (err response_validation_error, store))
null_name_refused_example =
    null_name_refused sql ann 50 1 unnamed anns store store-IsSound anns_own refl

Reach-IsConsistent_example :
    IsConsistent
      (get_db
        (TaskService.create sql like 104 60 6 2 chore)
        (get_db (ProjectService.delete sql 50 1 5) store).1).1
Reach-IsConsistent_example =
    Reach-IsConsistent sql like store-IsConsistent
      (next (next here (deletes_project 50 1 5 store)) (creates_task 104 60 6 2 chore _))

bobs_task : any (is_reachable 102 5 store.projects) store.tasks ≡ false
bobs_task = refl

task_hidden_example :
    (TaskService.get sql like 102 5 store ≡ (err TaskService.not_found, store))
    × (TaskService.update sql like 50 102 5 finished store ≡ (err TaskService.not_found, store))
    × (TaskService.delete sql like 50 102 5 store ≡ (err TaskService.not_found, store))
task_hidden_example = task_hidden sql like 102 5 finished 50 store store-IsValid bobs_task

anns_task : (TaskService.get sql like 101 5 store).0 ≡ ok (task 101 1)
anns_task = ap (λ r. r.0) (Tasks.get_found sql like 101 5 (task 101 1) store store-IsValid refl)

task_deleted_example :
    let after = (TaskService.delete sql like 50 101 5 store).1 in
    ((TaskService.delete sql like 50 101 5 store).0 ≡ ok tt)
    × (TaskService.get sql like 101 6 after ≡ (err TaskService.not_found, after))
    × ((TaskService.get sql like 102 6 after).0 ≡ (TaskService.get sql like 102 6 store).0)
    × (after.projects ≡ store.projects)
task_deleted_example =
    task_deleted sql like 50 101 5 102 6 (task 101 1) store store-IsValid anns_task refl

abbrev named : Project → Bool
named p = p.id == 1

listed_example :
    IsDescending
      (λ (p : Project). p.created_at)
      (ProjectListing.all_pages sql 5 store.projects 1 (omega arith) (omega arith))
    × (length (
          filter named
            (ProjectListing.all_pages sql 5 store.projects 1 (omega arith) (omega arith)))
        ≡ length
            (filter named (filter (ProjectListing.is_own sql 5 store.projects) store.projects)))
listed_example =
    ProjectListing.listed sql 5 store.projects 1 (omega arith) (omega arith) named (refl, tt)

abbrev open_tasks : TaskFilters
open_tasks = record { project_id = some 1; status = some todo; priority = none; search = some "pa" }

-- Ann's two tasks, with a task of bob's between them.
abbrev dated_tasks : List Task
dated_tasks = record (task 103 1) { entity = row 103 40 } ∷ task 102 2 ∷ task 101 1 ∷ []

abbrev early : Task → Bool
early t = t.id == 101

tasks_listed_example :
    IsDescending
      (λ (t : Task). t.created_at)
      (TaskListing.all_pages sql like 5 open_tasks dated_tasks store.projects 1
        (omega arith)
        (omega arith))
    × (length (
          filter early (
            TaskListing.all_pages sql like 5 open_tasks dated_tasks store.projects 1
              (omega arith)
              (omega arith)))
        ≡ length (
            filter early (
              filter
                (TaskListing.is_match sql like 5 open_tasks dated_tasks store.projects)
                dated_tasks)))
tasks_listed_example =
    TaskListing.tasks_listed sql like 5 open_tasks dated_tasks store.projects 1 (omega arith)
      (omega arith) early store-IsValid.projects (refl, (refl, tt))
