-- ===== src/Catalog/View.antt =====
-- The catalog of given tables: what a lookup by id finds among the live rows, and how the writes of
-- the services change it.
use task_mgt_app.Base.{
  ◌≡◌, refl, Bool, true, false, not, ◌&&◌, Option, none, some, List, [], ◌∷◌, any, arith, ◌==◌,
  is_none, if◌then◌else◌, Option-cases, Bool-cases, inl, inr, ◌∙◌,
}
use task_mgt_app.Catalog.{Catalog, if_owner, if_owned, only_if, changed, unless_in}
use task_mgt_app.Db.{Db}
use task_mgt_app.Entity.{Uuid, Instant, mark_deleted}
use task_mgt_app.Projects.Cascade.{swept}
use task_mgt_app.Projects.Model.{Project}
use task_mgt_app.Projects.Ownership as Projects
use task_mgt_app.Projects.Repository.{is_owned}
use task_mgt_app.Repository.{active}
use task_mgt_app.Repository.Lookup.{
  at, Distinct, Pins, first, put, first-put_other, first-put_same, first-put_hidden,
}
use task_mgt_app.Sql.{Sql}
use task_mgt_app.Tasks.Join.{has_owner}
use task_mgt_app.Tasks.Model.{Task}
use task_mgt_app.Tasks.Ownership as Tasks

abbrev pub live_project : Uuid → Project → Bool
live_project i p = is_none p.deleted_at && p.id == i

abbrev pub live_task : Uuid → Task → Bool
live_task i t = is_none t.deleted_at && t.id == i

pub record Represents (s : Db) (c : Catalog) : Type 0 where
  pub projects : (i : Uuid) → c.project_at i ≡ first Projects.id_of (live_project i) s.projects
  pub projects_used : (i : Uuid) → c.project_used i ≡ any (at Projects.id_of i) s.projects
  pub tasks : (i : Uuid) → c.task_at i ≡ first Tasks.id_of (live_task i) s.tasks
  pub tasks_used : (i : Uuid) → c.task_used i ≡ any (at Tasks.id_of i) s.tasks

abbrev pub view : Db → Catalog
view s = record {
  project_at = λ i. first Projects.id_of (live_project i) s.projects;
  project_used = λ i. any (at Projects.id_of i) s.projects;
  task_at = λ i. first Tasks.id_of (live_task i) s.tasks;
  task_used = λ i. any (at Tasks.id_of i) s.tasks;
}

pub Represents-view : (s : Db) → Represents s (view s)
Represents-view s = record {
  projects = λ i. refl;
  projects_used = λ i. refl;
  tasks = λ i. refl;
  tasks_used = λ i. refl;
}

module _ {A : Type 0} (id : A → Uuid) where
  pub first-absent :
      (i : Uuid) (p : A → Bool) (l : List A)
      → Pins id i p
      → any (at id i) l ≡ false
      → first id p l ≡ none
  first-absent i p [] pins h = refl
  first-absent i p (a ∷ l) pins h = ground (arith, first-absent i p l pins, pins a)

  abbrev pub keep_if : (A → Bool) → Option A → Option A
  keep_if q none = none
  keep_if q (some a) = if q a then some a else none

  -- A further condition on the one row that an id has.
  pub first-keep_if :
      (i : Uuid) (p q : A → Bool) (l : List A)
      → Pins id i p
      → Distinct id l
      → first id (λ a. p a && q a) l ≡ keep_if q (first id p l)
  first-keep_if i p q [] pins d = refl
  first-keep_if i p q (a ∷ l) pins (fresh, d) =
      ground (arith, first-keep_if i p q l pins d, first-absent i p l pins, pins a)

pub Pins-live_project : (i : Uuid) → Pins Projects.id_of i (live_project i)
Pins-live_project i p h = ground arith

pub Pins-live_task : (i : Uuid) → Pins Tasks.id_of i (live_task i)
Pins-live_task i t h = ground arith

pub has_owner_lem :
    (o : Uuid) (l : List Project) (t : Task)
    → Distinct Projects.id_of l
    → has_owner o l t
      ≡ not (is_none (if_owner o (first Projects.id_of (live_project t.project_id) l)))
has_owner_lem o [] t d = refl
has_owner_lem o (p ∷ l) t (fresh, d) = ground (
  arith,
  has_owner_lem o l t d,
  first-absent Projects.id_of t.project_id (live_project t.project_id) l
      (Pins-live_project t.project_id),
)

pub first-owned :
    (sql : Sql) (i o : Uuid) (l : List Project)
    → Distinct Projects.id_of l
    → first Projects.id_of (is_owned sql i o) l
      ≡ if_owner o (first Projects.id_of (live_project i) l)
unfolding is_owned active
first-owned sql i o [] d = refl
first-owned sql i o (p ∷ l) (fresh, d) = ground (
  arith,
  first-owned sql i o l d,
  first-absent Projects.id_of i (live_project i) l (Pins-live_project i),
)

only_if_lem :
    (p : Option Project) (t : Task) → (if not (is_none p) then some t else none) ≡ only_if p t
only_if_lem none t = refl
only_if_lem (some p) t = refl

pub first-reachable :
    (i o : Uuid) (s : Db)
    → Tasks.IsValid s
    → first Tasks.id_of (Tasks.is_reachable i o s.projects) s.tasks
      ≡ if_owned (view s) o (first Tasks.id_of (live_task i) s.tasks)
first-reachable i o s v =
    first-keep_if Tasks.id_of i (live_task i) (has_owner o s.projects) s.tasks (Pins-live_task i)
      v.tasks
    ∙ elim (Option-cases (first Tasks.id_of (live_task i) s.tasks)) [
      | inl missing ↦ rw missing
      | inr (t, found) ↦
          rw (found, has_owner_lem o s.projects t v.projects)
            (only_if_lem (if_owner o (first Projects.id_of (live_project t.project_id) s.projects))
              t)
    ]

pub first-swept :
    (now : Instant) (i j : Uuid) (l : List Task)
    → Distinct Tasks.id_of l
    → first Tasks.id_of (live_task j) (swept now i l)
      ≡ unless_in i (first Tasks.id_of (live_task j) l)
unfolding mark_deleted
first-swept now i j [] d = refl
first-swept now i j (t ∷ l) (fresh, d) =
    ground (
      arith,
      first-swept now i j l d,
      first-absent Tasks.id_of j (live_task j) l (Pins-live_task j),
    )

-- How the writes of one row change a lookup.
module _ {A : Type 0} (id : A → Uuid) (live : Uuid → A → Bool) where
  pub first-put_kept :
      (i j : Uuid) (a : A) (l : List A)
      → ((k : Uuid) → Pins id k (live k))
      → id a ≡ i
      → live i a ≡ true
      → any (at id i) l ≡ true
      → first id (live j) (put id a l) ≡ changed i (some a) (λ k. first id (live k) l) j
  first-put_kept i j a l pins same alive present = elim (Bool-cases (i == j)) [
    | inl here ↦
        let e : j ≡ i = ground arith in
        rw (here, e) (first-put_same id (live i) a l (rw same (pins i)) (rw same present) alive)
    | inr other ↦ rw (other, first-put_other id j (live j) a l (pins j) (rw same other))
  ]

  pub first-put_gone :
      (i j : Uuid) (a : A) (l : List A)
      → ((k : Uuid) → Pins id k (live k))
      → id a ≡ i
      → live i a ≡ false
      → first id (live j) (put id a l) ≡ changed i none (λ k. first id (live k) l) j
  first-put_gone i j a l pins same dead = elim (Bool-cases (i == j)) [
    | inl here ↦
        let e : j ≡ i = ground arith in
        rw (here, e) (first-put_hidden id (live i) a l (rw same (pins i)) dead)
    | inr other ↦ rw (other, first-put_other id j (live j) a l (pins j) (rw same other))
  ]

-- What no row does, no row does after the write of one that does not.
pub any-put_none :
    {A : Type 0} (id : A → Uuid) (q : A → Bool) (a : A) (l : List A)
    → q a ≡ false
    → any q l ≡ false
    → any q (put id a l) ≡ false
any-put_none id q a [] h k = refl
any-put_none id q a (b ∷ l) h k = ground (arith, any-put_none id q a l)
