-- ===== src/Catalog/Projects/Rows.antt =====
-- What the writes of projects do to the catalog of the tables.
use task_mgt_app.Base.{
  String, ◌≡◌, refl, sym, ◌∙◌, true, false, Option, none, some, ◌∷◌, any, arith,
}
use task_mgt_app.Catalog.{Catalog, put_project, drop_project, add_project}
use task_mgt_app.Catalog.View.{
  Represents, live_project, Pins-live_project, first-put_kept, first-put_gone, first-swept,
}
use task_mgt_app.Consistency.Rows.{any-swept}
use task_mgt_app.Consistency.Transactions.{IsConsistent}
use task_mgt_app.Db.{Db}
use task_mgt_app.Entity.{Uuid, Instant, mark_deleted}
use task_mgt_app.Projects.Cascade.{deleted_row, swept}
use task_mgt_app.Projects.Model.{
  Project, ProjectUpdate, new_project, set_fields, flushed, is_complete,
}
use task_mgt_app.Projects.Ownership.{id_of, is_owned_sound, Pins-is_owned}
use task_mgt_app.Projects.Repository.{is_owned}
use task_mgt_app.Repository.{active}
use task_mgt_app.Repository.Lookup.{at, first, first_sound, put, any-put, any-first_pinned}
use task_mgt_app.Sql.{Sql}

pub put_project-Represents :
    (i : Uuid) (p : Project) (s : Db) (c : Catalog)
    → Represents s c
    → p.id ≡ i
    → live_project i p ≡ true
    → any (at id_of i) s.projects ≡ true
    → Represents (record s { projects = put id_of p s.projects }) (put_project c i p)
unfolding put_project
put_project-Represents i p s c v same alive present = record {
  projects = λ j. rw (
    first-put_kept id_of live_project i j p s.projects Pins-live_project same alive present,
    v.projects j,
  );
  projects_used = λ j. v.projects_used j ∙ sym (any-put id_of j p s.projects);
  tasks = v.tasks;
  tasks_used = v.tasks_used;
}

pub drop_project-Represents :
    (now : Instant) (p : Project) (s : Db) (c : Catalog)
    → IsConsistent s
    → Represents s c
    → live_project p.id p ≡ false
    → Represents
        (record { projects = put id_of p s.projects; tasks = swept now p.id s.tasks })
        (drop_project c p.id)
unfolding drop_project
drop_project-Represents now p s c w v dead = record {
  projects = λ j. rw (
    first-put_gone id_of live_project p.id j p s.projects Pins-live_project refl dead,
    v.projects j,
  );
  projects_used = λ j. v.projects_used j ∙ sym (any-put id_of j p s.projects);
  tasks = λ j. rw (first-swept now p.id j s.tasks w.sound.ids.tasks, v.tasks j);
  tasks_used = λ j. v.tasks_used j ∙ sym (any-swept now p.id j s.tasks);
}

pub add_project-Represents :
    (p : Project) (s : Db) (c : Catalog)
    → Represents s c
    → p.deleted_at ≡ none
    → Represents (record s { projects = p ∷ s.projects }) (add_project c p.id p)
unfolding add_project
add_project-Represents p s c v alive = record {
  projects = λ j. rw (alive, v.projects j);
  projects_used = λ j. rw (v.projects_used j);
  tasks = v.tasks;
  tasks_used = v.tasks_used;
}

pub found_present :
    (sql : Sql) (i o : Uuid) (p : Project) (s : Db)
    → first id_of (is_owned sql i o) s.projects ≡ some p
    → (p.id ≡ i) × (any (at id_of i) s.projects ≡ true)
found_present sql i o p s h = (
  (is_owned_sound sql i o p (first_sound id_of (is_owned sql i o) p s.projects h)).0,
  any-first_pinned id_of i (is_owned sql i o) p s.projects (Pins-is_owned sql i o) h,
)

pub live-flushed :
    (sql : Sql) (now : Instant) (i o : Uuid) (fields : ProjectUpdate) (p : Project)
    → is_owned sql i o p ≡ true
    → live_project i (flushed now fields p) ≡ true
unfolding is_owned active flushed set_fields
live-flushed sql now i o fields p h = ground arith

pub id-flushed :
    (now : Instant) (fields : ProjectUpdate) (p : Project) → (flushed now fields p).id ≡ p.id
unfolding flushed set_fields
id-flushed now fields p = refl

pub complete-flushed :
    (now : Instant) (fields : ProjectUpdate) (p : Project)
    → is_complete (flushed now fields p) ≡ is_complete (set_fields fields p)
unfolding flushed set_fields is_complete
complete-flushed now fields p = refl

pub id-deleted : (sql : Sql) (now : Instant) (p : Project) → (deleted_row sql now p).id ≡ p.id
unfolding mark_deleted
id-deleted sql now p = refl

pub dead-deleted_row :
    (sql : Sql) (now : Instant) (i : Uuid) (p : Project)
    → live_project i (deleted_row sql now p) ≡ false
unfolding mark_deleted
dead-deleted_row sql now i p = refl

pub complete-deleted_row :
    (sql : Sql) (now : Instant) (p : Project) → is_complete (deleted_row sql now p) ≡ is_complete p
unfolding mark_deleted is_complete
complete-deleted_row sql now p = refl

pub new_row :
    (id : Uuid) (now : Instant) (o : Uuid) (name : String) (description : Option String)
    → let p = new_project id now o name description in
      (p.id ≡ id) × (p.deleted_at ≡ none) × (is_complete p ≡ true)
unfolding new_project is_complete
new_row id now o name description = (refl, refl, refl)
