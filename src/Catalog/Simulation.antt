-- ===== src/Catalog/Simulation.antt =====
-- One request on both sides: the services over tables, and the promise over the catalog of them.
use task_mgt_app.Base.{String, ◌≡◌, refl, sym, ap, Option, none, some, ◌∙◌, Bool}
use task_mgt_app.Catalog.{
  Catalog, Request, Answer, promise, owned, owned_task, if_owner, if_owned, only_if,
}
use task_mgt_app.Catalog.Serve.{serve}
use task_mgt_app.Catalog.View.{Represents, view, first-owned, first-reachable, live_task}
use task_mgt_app.Db.{Db}
use task_mgt_app.Entity.{Uuid}
use task_mgt_app.Projects.Ownership as Projects
use task_mgt_app.Projects.Repository.{is_owned}
use task_mgt_app.Repository.Lookup.{Distinct, first}
use task_mgt_app.Sql.{Sql}
use task_mgt_app.Tasks.Model.{Task}
use task_mgt_app.Tasks.Ownership as Tasks

module _ (sql : Sql) (ilike : String → String → Bool) where
  -- The same answer, and tables that the catalog still represents.
  pub record Simulates (r : Request) (s : Db) (c : Catalog) : Type 0 where
    pub same : (serve sql ilike r s).0 ≡ (promise c r).0
    pub represents : Represents (serve sql ilike r s).1 (promise c r).1

  pub simulates :
      (r : Request) (s s' : Db) (c c' : Catalog) (a : Answer)
      → serve sql ilike r s ≡ (a, s')
      → promise c r ≡ (a, c')
      → Represents s' c'
      → Simulates r s c
  simulates r s s' c c' a h k v = record { same = rw (h, k); represents = rw (h, k) v }

module _ (s : Db) (c : Catalog) (v : Represents s c) where
  pub owned_lem :
      (sql : Sql) (i o : Uuid)
      → Distinct Projects.id_of s.projects
      → owned i o c ≡ first Projects.id_of (is_owned sql i o) s.projects
  owned_lem sql i o d = ap (if_owner o) (v.projects i) ∙ sym (first-owned sql i o s.projects d)

  if_owned-view : (o : Uuid) (t : Option Task) → if_owned c o t ≡ if_owned (view s) o t
  if_owned-view o none = refl
  if_owned-view o (some t) = ap (λ p. only_if (if_owner o p) t) (v.projects t.project_id)

  pub owned_task_lem :
      (i o : Uuid)
      → Tasks.IsValid s
      → owned_task i o c ≡ first Tasks.id_of (Tasks.is_reachable i o s.projects) s.tasks
  owned_task_lem i o d =
      ap (if_owned c o) (v.tasks i)
      ∙ if_owned-view o (first Tasks.id_of (live_task i) s.tasks)
      ∙ sym (first-reachable i o s d)
