-- ===== src/Catalog/Tasks/Rows.antt =====
-- What the writes of tasks do to the catalog of the tables.
use task_mgt_app.Base.{◌≡◌, refl, sym, ◌∙◌, true, false, none, some, ◌∷◌, any, arith}
use task_mgt_app.Catalog.{Catalog, put_task, drop_task, add_task}
use task_mgt_app.Catalog.View.{
  Represents, live_task, Pins-live_task, first-put_kept, first-put_gone,
}
use task_mgt_app.Db.{Db}
use task_mgt_app.Entity.{Uuid, Instant, mark_deleted}
use task_mgt_app.Repository.Lookup.{at, first, first_sound, put, any-put, any-first_pinned}
use task_mgt_app.Tasks.Changes.{deleted_row, with_tasks}
use task_mgt_app.Tasks.Model.{
  Task, TaskCreate, TaskUpdate, new_task, set_fields, flushed, is_complete,
}
use task_mgt_app.Tasks.Ownership.{id_of, is_reachable, is_reachable_sound, Pins-is_reachable}

pub put_task-Represents :
    (i : Uuid) (t : Task) (s : Db) (c : Catalog)
    → Represents s c
    → t.id ≡ i
    → live_task i t ≡ true
    → any (at id_of i) s.tasks ≡ true
    → Represents (with_tasks (put id_of t s.tasks) s) (put_task c i t)
unfolding put_task
put_task-Represents i t s c v same alive present = record {
  projects = v.projects;
  projects_used = v.projects_used;
  tasks = λ j.
      rw
        (first-put_kept id_of live_task i j t s.tasks Pins-live_task same alive present, v.tasks j);
  tasks_used = λ j. v.tasks_used j ∙ sym (any-put id_of j t s.tasks);
}

pub drop_task-Represents :
    (t : Task) (s : Db) (c : Catalog)
    → Represents s c
    → live_task t.id t ≡ false
    → Represents (with_tasks (put id_of t s.tasks) s) (drop_task c t.id)
unfolding drop_task
drop_task-Represents t s c v dead = record {
  projects = v.projects;
  projects_used = v.projects_used;
  tasks =
      λ j. rw (first-put_gone id_of live_task t.id j t s.tasks Pins-live_task refl dead, v.tasks j);
  tasks_used = λ j. v.tasks_used j ∙ sym (any-put id_of j t s.tasks);
}

pub add_task-Represents :
    (t : Task) (s : Db) (c : Catalog)
    → Represents s c
    → t.deleted_at ≡ none
    → Represents (record s { tasks = t ∷ s.tasks }) (add_task c t.id t)
unfolding add_task
add_task-Represents t s c v alive = record {
  projects = v.projects;
  projects_used = v.projects_used;
  tasks = λ j. rw (alive, v.tasks j);
  tasks_used = λ j. rw (v.tasks_used j);
}

pub found_present :
    (i o : Uuid) (t : Task) (s : Db)
    → first id_of (is_reachable i o s.projects) s.tasks ≡ some t
    → (t.id ≡ i) × (any (at id_of i) s.tasks ≡ true) × (t.deleted_at ≡ none)
found_present i o t s h =
    let (same, alive, owned) =
      is_reachable_sound i o s.projects t
        (first_sound id_of (is_reachable i o s.projects) t s.tasks h) in
    (
      same,
      any-first_pinned id_of i (is_reachable i o s.projects) t s.tasks
          (Pins-is_reachable i o s.projects) h,
      alive,
    )

pub live-flushed :
    (now : Instant) (i : Uuid) (fields : TaskUpdate) (t : Task)
    → t.id ≡ i
    → t.deleted_at ≡ none
    → live_task i (flushed now fields t) ≡ true
unfolding flushed set_fields
live-flushed now i fields t h k = ground arith

pub id-flushed : (now : Instant) (fields : TaskUpdate) (t : Task) → (flushed now fields t).id ≡ t.id
unfolding flushed set_fields
id-flushed now fields t = refl

pub complete-flushed :
    (now : Instant) (fields : TaskUpdate) (t : Task)
    → is_complete (flushed now fields t) ≡ is_complete (set_fields fields t)
unfolding flushed set_fields is_complete
complete-flushed now fields t = refl

pub id-deleted : (now : Instant) (t : Task) → (deleted_row now t).id ≡ t.id
unfolding mark_deleted
id-deleted now t = refl

pub dead-deleted_row :
    (now : Instant) (i : Uuid) (t : Task) → live_task i (deleted_row now t) ≡ false
unfolding mark_deleted
dead-deleted_row now i t = refl

pub complete-deleted_row :
    (now : Instant) (t : Task) → is_complete (deleted_row now t) ≡ is_complete t
unfolding mark_deleted is_complete
complete-deleted_row now t = refl

-- A new row is live and has every NOT NULL column.
pub new_row :
    (id : Uuid) (now : Instant) (i : Uuid) (fields : TaskCreate)
    → let t = new_task id now i fields in
      (t.id ≡ id) × (t.project_id ≡ i) × (t.deleted_at ≡ none) × (is_complete t ≡ true)
unfolding new_task is_complete
new_row id now i fields = (refl, refl, refl, refl)
