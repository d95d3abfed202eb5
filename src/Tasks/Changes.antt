-- ===== src/Tasks/Changes.antt =====
-- A PATCH and a deletion of a task: `TaskService.update` and `TaskService.delete`.
use task_mgt_app.Base.{
  String, ◌≡◌, refl, ◌∙◌, Bool, true, false, some, List, arith, ◌==◌, Option-cases, inl, inr,
}
use task_mgt_app.Db.{Db}
use task_mgt_app.Entity.{Uuid, Instant, mark_deleted, stamped}
use task_mgt_app.Errors.{ok, err}
use task_mgt_app.Projects.Model.{Project}
use task_mgt_app.Repository as Base
use task_mgt_app.Repository.{has_id}
use task_mgt_app.Repository.Lookup.{
  first, put, Distinct-put, first-put_other, first-put_hidden, first_sound,
}
use task_mgt_app.Sql.{Sql}
use task_mgt_app.Tasks.Model.{Task, task_model, TaskUpdate, set_fields, flushed}
use task_mgt_app.Tasks.Ownership.{
  id_of, is_reachable, is_reachable_sound, Pins-is_reachable, IsValid, get_found, get_missing,
  first-get,
}
use task_mgt_app.Tasks.Service.{not_found, get, update, delete}

abbrev pub with_tasks : List Task → Db → Db
with_tasks l s = record s { tasks = l }

put-IsValid : (t : Task) (s : Db) → IsValid s → IsValid (with_tasks (put id_of t s.tasks) s)
put-IsValid t s v = record { projects = v.projects; tasks = Distinct-put id_of t s.tasks v.tasks }

abbrev pub deleted_row : Instant → Task → Task
deleted_row now t = record t { entity = stamped true now (mark_deleted now t.entity) }

reachable-deleted :
    (now : Instant) (i o : Uuid) (l : List Project) (t : Task)
    → is_reachable i o l (deleted_row now t) ≡ false
unfolding mark_deleted
reachable-deleted now i o l t = refl

id-deleted : (now : Instant) (t : Task) → (deleted_row now t).id ≡ t.id
unfolding mark_deleted
id-deleted now t = refl

module _ (sql : Sql) (ilike : String → String → Bool) where
  write_lem : (t : Task) (l : List Task) → Base.overwrite sql task_model t l ≡ put id_of t l
  unfolding Base.overwrite has_id
  write_lem t l = sql.update_lem _ _ l

  delete_row_lem :
      (now : Instant) (t : Task) (l : List Task)
      → Base.delete sql task_model now t l ≡ put id_of (deleted_row now t) l
  unfolding Base.delete Base.write
  delete_row_lem now t l = write_lem (deleted_row now t) l

  -- What `get` answers depends on the row that is found only.
  get_first :
      (i o : Uuid) (s s' : Db)
      → IsValid s
      → IsValid s'
      → first id_of (is_reachable i o s'.projects) s'.tasks
        ≡ first id_of (is_reachable i o s.projects) s.tasks
      → (get sql ilike i o s').0 ≡ (get sql ilike i o s).0
  get_first i o s s' v v' h =
      elim (Option-cases (first id_of (is_reachable i o s.projects) s.tasks)) [
        | inl missing ↦
            cc
              (get_missing sql ilike i o s v missing, get_missing sql ilike i o s' v' (h ∙ missing))
        | inr (q, found) ↦
            cc (get_found sql ilike i o q s v found, get_found sql ilike i o q s' v' (h ∙ found))
      ]

  pub update_lem :
      (now : Instant) (i o : Uuid) (fields : TaskUpdate) (t : Task) (s : Db)
      → IsValid s
      → first id_of (is_reachable i o s.projects) s.tasks ≡ some t
      → update sql ilike now i o fields s
        ≡ (ok (set_fields fields t), with_tasks (put id_of (flushed now fields t) s.tasks) s)
  unfolding update flushed Base.write
  update_lem now i o fields t s v h =
      ground (arith, get_found sql ilike i o t s v h, write_lem (flushed now fields t) s.tasks)

  pub delete_lem :
      (now : Instant) (i o : Uuid) (t : Task) (s : Db)
      → IsValid s
      → first id_of (is_reachable i o s.projects) s.tasks ≡ some t
      → delete sql ilike now i o s ≡ (ok tt, with_tasks (put id_of (deleted_row now t) s.tasks) s)
  unfolding delete
  delete_lem now i o t s v h =
      ground (arith, get_found sql ilike i o t s v h, delete_row_lem now t s.tasks)

  -- In tables in which ids stand once, let `get` return a task to a user. `delete` of it returns
  -- normally; behind it no user gets the task, every task with another id is found or not as before
  -- by any user, and the projects are unchanged.
  pub task_deleted :
      (now : Instant) (i o j o' : Uuid) (t : Task) (s : Db)
      → IsValid s
      → (get sql ilike i o s).0 ≡ ok t
      → (i == j) ≡ false
      → let after = (delete sql ilike now i o s).1 in
        ((delete sql ilike now i o s).0 ≡ ok tt)
        × (get sql ilike i o' after ≡ (err not_found, after))
        × ((get sql ilike j o' after).0 ≡ (get sql ilike j o' s).0)
        × (after.projects ≡ s.projects)
  task_deleted now i o j o' t s v h other =
      let found = first-get sql ilike i o t s v h in
      let reached = first_sound id_of (is_reachable i o s.projects) t s.tasks found in
      let same_id = id-deleted now t ∙ (is_reachable_sound i o s.projects t reached).0 in
      let valid = put-IsValid (deleted_row now t) s v in
      rw (delete_lem now i o t s v found) (
        refl,
        get_missing sql ilike i o' _ valid (
            first-put_hidden id_of (is_reachable i o' s.projects) (deleted_row now t) s.tasks
              (rw same_id (Pins-is_reachable i o' s.projects))
              (reachable-deleted now i o' s.projects t)),
        get_first j o' s _ v valid (
            first-put_other id_of j (is_reachable j o' s.projects) (deleted_row now t) s.tasks
              (Pins-is_reachable j o' s.projects) (rw same_id other)),
        refl,
      )
