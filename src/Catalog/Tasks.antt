-- ===== src/Catalog/Tasks.antt =====
-- The requests on tasks keep their promises.
pub mod Rows
use task_mgt_app.Base.{
  String, ◌≡◌, refl, sym, ap, ◌∙◌, Bool, true, false, not, ◌&&◌, Option, none, some, ◌∷◌, any,
  arith, ◌==◌, Option-cases, Bool-cases, inl, inr,
}
use task_mgt_app.Catalog.{
  Catalog, post_task, read_task, patch_task, remove_task, promise, put_task, drop_task, add_task,
  a_task, nothing,
}
use task_mgt_app.Catalog.Commit.{
  get_db_ok, get_db_refused, get_db_err, is_partial_task, IsComplete-of, IsComplete-to,
  incomplete_tasks, found_complete,
}
use task_mgt_app.Catalog.Serve.{serve, answer_with}
use task_mgt_app.Catalog.Simulation.{Simulates, simulates, owned_lem, owned_task_lem}
use task_mgt_app.Catalog.View.{
  Represents, live_task, Pins-live_task, first-put_kept, first-put_gone, any-put_none,
}
use task_mgt_app.Consistency.Requests.{tasks_add_lem}
use task_mgt_app.Consistency.Transactions.{IsConsistent}
use task_mgt_app.Db.{Db}
use task_mgt_app.Entity.{Uuid, Instant, mark_deleted}
use task_mgt_app.Errors.{ok, err, integrity_error}
use task_mgt_app.Projects.Model.{Project}
use task_mgt_app.Projects.Ownership as Projects
use task_mgt_app.Projects.Repository as ProjectRepository
use task_mgt_app.Projects.Service as ProjectService
use task_mgt_app.Repository.Lookup.{
  at, first, first_sound, put, any-put, any-put_row, any-first_pinned,
}
use task_mgt_app.Sql.{Sql}
use task_mgt_app.Tasks.Changes.{update_lem, delete_lem, deleted_row, with_tasks}
use task_mgt_app.Tasks.Model.{
  Task, TaskCreate, TaskUpdate, new_task, set_fields, flushed, is_complete,
}
use task_mgt_app.Tasks.Ownership.{
  id_of, is_reachable, is_reachable_sound, Pins-is_reachable, get_missing, get_found,
  update_missing, delete_missing, create_missing, create_found,
}
use task_mgt_app.Tasks.Service as Service
use task_mgt_app.Catalog.Tasks.Rows.{
  put_task-Represents, drop_task-Represents, add_task-Represents, found_present, live-flushed,
  id-flushed, complete-flushed, id-deleted, dead-deleted_row, complete-deleted_row, new_row,
}

module _ (sql : Sql) (ilike : String → String → Bool) where
  pub read_task-Simulates :
      (i o : Uuid) (s : Db) (c : Catalog)
      → IsConsistent s
      → Represents s c
      → Simulates sql ilike (read_task i o) s c
  unfolding serve promise
  read_task-Simulates i o s c w v =
      let d = w.sound.ids in
      let lookup = owned_task_lem s c v i o d in
      elim (Option-cases (first id_of (is_reachable i o s.projects) s.tasks)) [
        | inl missing ↦
            simulates sql ilike (read_task i o) s s c c (a_task (err Service.not_found))
              (ap (answer_with a_task) (get_db_err _ s _ s (get_missing sql ilike i o s d missing)))
              (rw (lookup, missing)) v
        | inr (t, found) ↦
            simulates sql ilike (read_task i o) s s c c (a_task (ok t))
              (ap (answer_with a_task)
                (get_db_ok _ s t s (get_found sql ilike i o t s d found) w.complete))
              (rw (lookup, found)) v
      ]

  pub patch_task-Simulates :
      (now : Instant) (i o : Uuid) (fields : TaskUpdate) (s : Db) (c : Catalog)
      → IsConsistent s
      → Represents s c
      → Simulates sql ilike (patch_task now i o fields) s c
  unfolding serve promise
  patch_task-Simulates now i o fields s c w v =
      let d = w.sound.ids in
      let lookup = owned_task_lem s c v i o d in
      let full = IsComplete-of s w.complete in
      elim (Option-cases (first id_of (is_reachable i o s.projects) s.tasks)) [
        | inl missing ↦
            simulates sql ilike (patch_task now i o fields) s s c c (a_task (err Service.not_found))
              (ap (answer_with a_task)
                (get_db_err _ s _ s (update_missing sql ilike now i o fields s d missing)))
              (rw (lookup, missing)) v
        | inr (t, found) ↦
            let new = set_fields fields t in
            let row = flushed now fields t in
            let ran = update_lem sql ilike now i o fields t s d found in
            let (same, present, alive) = found_present i o t s found in
            let same_id : row.id ≡ i = id-flushed now fields t ∙ same in
            let whole = complete-flushed now fields t in
            elim (Bool-cases (is_complete new)) [
              | inl filled ↦
                  simulates sql ilike (patch_task now i o fields) s _ c (put_task c i row)
                    (a_task (ok new))
                    (ap (answer_with a_task) (
                      get_db_ok _ s new _ ran (
                        IsComplete-to _ (record {
                          projects = full.projects;
                          tasks =
                              any-put_none id_of is_partial_task row s.tasks (rw (whole, filled))
                                full.tasks;
                        }))))
                    (rw (lookup, found, filled))
                    (put_task-Represents i row s c v same_id
                      (live-flushed now i fields t same alive) present)
              | inr refused ↦
                  simulates sql ilike (patch_task now i o fields) s s c c
                    (a_task (err integrity_error))
                    (ap (answer_with a_task) (
                      get_db_refused _ s new _ ran (
                        incomplete_tasks _ (
                          any-put_row id_of is_partial_task row s.tasks (rw (same_id, present))
                            (rw (whole, refused))))))
                    (rw (lookup, found, refused)) v
            ]
      ]

  pub remove_task-Simulates :
      (now : Instant) (i o : Uuid) (s : Db) (c : Catalog)
      → IsConsistent s
      → Represents s c
      → Simulates sql ilike (remove_task now i o) s c
  unfolding serve promise mark_deleted
  remove_task-Simulates now i o s c w v =
      let d = w.sound.ids in
      let lookup = owned_task_lem s c v i o d in
      let full = IsComplete-of s w.complete in
      elim (Option-cases (first id_of (is_reachable i o s.projects) s.tasks)) [
        | inl missing ↦
            simulates sql ilike (remove_task now i o) s s c c (nothing (err Service.not_found))
              (ap (answer_with nothing)
                (get_db_err _ s _ s (delete_missing sql ilike now i o s d missing)))
              (rw (lookup, missing)) v
        | inr (t, found) ↦
            let (same, present, alive) = found_present i o t s found in
            let row = deleted_row now t in
            let whole =
              complete-deleted_row now t
              ∙ found_complete id_of (is_reachable i o s.projects) is_complete t s.tasks found
                  full.tasks in
            simulates sql ilike (remove_task now i o) s _ c (drop_task c row.id) (nothing (ok tt))
              (ap (answer_with nothing) (
                get_db_ok _ s tt _ (delete_lem sql ilike now i o t s d found) (
                  IsComplete-to _ (record {
                    projects = full.projects;
                    tasks = any-put_none id_of is_partial_task row s.tasks (rw whole) full.tasks;
                  }))))
              (rw (lookup, found, id-deleted now t, same))
              (drop_task-Represents row s c v (dead-deleted_row now row.id t))
      ]

  pub post_task-Simulates :
      (id : Uuid) (now : Instant) (o i : Uuid) (fields : TaskCreate) (s : Db) (c : Catalog)
      → IsConsistent s
      → Represents s c
      → Simulates sql ilike (post_task id now o i fields) s c
  unfolding serve promise new_task
  post_task-Simulates id now o i fields s c w v =
      let d = w.sound.ids in
      let lookup = owned_lem s c v sql i o d.projects in
      let full = IsComplete-of s w.complete in
      elim (Option-cases (first Projects.id_of (ProjectRepository.is_owned sql i o) s.projects)) [
        | inl missing ↦
            simulates sql ilike (post_task id now o i fields) s s c c
              (a_task (err ProjectService.not_found))
              (ap (answer_with a_task)
                (get_db_err _ s _ s (create_missing sql ilike id now o i fields s d missing)))
              (rw (lookup, missing)) v
        | inr (p, found) ↦
            let t = new_task id now i fields in
            let (same, under, alive, whole) = new_row id now i fields in
            let rooted =
              any-first_pinned Projects.id_of i (ProjectRepository.is_owned sql i o) p s.projects
                (Projects.Pins-is_owned sql i o) found in
            let added =
              create_found sql ilike id now o i fields p s d found ∙ tasks_add_lem sql ilike t s in
            elim (Bool-cases (any (at id_of id) s.tasks)) [
              | inl taken ↦
                  simulates sql ilike (post_task id now o i fields) s s c c
                    (a_task (err integrity_error))
                    (ap (answer_with a_task) (get_db_err _ s _ s (added ∙ rw (whole, same, taken))))
                    (rw (lookup, found, v.tasks_used id, taken)) v
              | inr free ↦
                  simulates sql ilike (post_task id now o i fields) s _ c (add_task c id t)
                    (a_task (ok t))
                    (ap (answer_with a_task) (
                      get_db_ok _ s t _ (added ∙ rw (whole, same, free, rooted)) (
                        IsComplete-to _
                          (record { projects = full.projects; tasks = rw (whole, full.tasks) }))))
                    (rw (lookup, found, v.tasks_used id, free)) (add_task-Represents t s c v alive)
            ]
      ]
