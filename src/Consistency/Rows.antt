-- ===== src/Consistency/Rows.antt =====
-- The invariant, and what the writes of single rows do to it.
use task_mgt_app.Base.{◌≡◌, refl, ap, ◌∙◌, Bool, false, not, List, [], ◌∷◌, any, arith}
use task_mgt_app.Db.{Db}
use task_mgt_app.Entity.{Uuid, Instant, mark_deleted}
use task_mgt_app.Projects.Cascade.{swept}
use task_mgt_app.Projects.Model.{Project}
use task_mgt_app.Projects.Ownership as Projects
use task_mgt_app.Repository.Lookup.{at, Distinct, any-put, put, Distinct-put}
use task_mgt_app.Tasks.Model.{Task}
use task_mgt_app.Tasks.Ownership as Tasks
use task_mgt_app.Tasks.Ownership.{IsValid}

-- A task whose project has no row, deleted or not.
abbrev pub is_orphan : List Project → Task → Bool
is_orphan l t = not (any (at Projects.id_of t.project_id) l)

pub record IsSound (s : Db) : Type 0 where
  pub ids : IsValid s
  pub rooted : any (is_orphan s.projects) s.tasks ≡ false

any-ext : {A : Type 0} (p q : A → Bool) (l : List A) → ((a : A) → p a ≡ q a) → any p l ≡ any q l
any-ext p q [] h = refl
any-ext p q (a ∷ l) h = rw (h a, any-ext p q l h)

pub any-swept :
    (now : Instant) (i k : Uuid) (l : List Task)
    → any (at Tasks.id_of k) (swept now i l) ≡ any (at Tasks.id_of k) l
unfolding mark_deleted
any-swept now i k [] = refl
any-swept now i k (t ∷ l) = ground (arith, any-swept now i k l)

pub Distinct-swept :
    (now : Instant) (i : Uuid) (l : List Task)
    → Distinct Tasks.id_of l
    → Distinct Tasks.id_of (swept now i l)
unfolding mark_deleted
Distinct-swept now i [] d = tt
Distinct-swept now i (t ∷ l) (fresh, d) =
    ground (arith, Distinct-swept now i l d, any-swept now i t.id l)

orphans-swept :
    (now : Instant) (i : Uuid) (ps : List Project) (l : List Task)
    → any (is_orphan ps) (swept now i l) ≡ any (is_orphan ps) l
unfolding mark_deleted
orphans-swept now i ps [] = refl
orphans-swept now i ps (t ∷ l) = ground (arith, orphans-swept now i ps l)

orphans-put :
    (ps : List Project) (u : Task) (l : List Task)
    → is_orphan ps u ≡ false
    → any (is_orphan ps) l ≡ false
    → any (is_orphan ps) (put Tasks.id_of u l) ≡ false
orphans-put ps u [] h k = refl
orphans-put ps u (t ∷ l) h k = ground (arith, orphans-put ps u l h)

orphans-add :
    (p : Project) (ps : List Project) (l : List Task)
    → any (is_orphan ps) l ≡ false
    → any (is_orphan (p ∷ ps)) l ≡ false
orphans-add p ps [] h = refl
orphans-add p ps (t ∷ l) h = ground (arith, orphans-add p ps l)

pub project_put-IsSound :
    (p : Project) (s : Db)
    → IsSound s
    → IsSound (record s { projects = put Projects.id_of p s.projects })
project_put-IsSound p s v = record {
  ids = record {
    projects = Distinct-put Projects.id_of p s.projects v.ids.projects;
    tasks = v.ids.tasks;
  };
  rooted =
      any-ext _ _ s.tasks (λ t. ap not (any-put Projects.id_of t.project_id p s.projects))
      ∙ v.rooted;
}

pub project_add-IsSound :
    (p : Project) (s : Db)
    → any (at Projects.id_of p.id) s.projects ≡ false
    → IsSound s
    → IsSound (record s { projects = p ∷ s.projects })
project_add-IsSound p s fresh v = record {
  ids = record { projects = (fresh, v.ids.projects); tasks = v.ids.tasks };
  rooted = orphans-add p s.projects s.tasks v.rooted;
}

pub task_put-IsSound :
    (t : Task) (s : Db)
    → is_orphan s.projects t ≡ false
    → IsSound s
    → IsSound (record s { tasks = put Tasks.id_of t s.tasks })
task_put-IsSound t s h v = record {
  ids = record {
    projects = v.ids.projects;
    tasks = Distinct-put Tasks.id_of t s.tasks v.ids.tasks;
  };
  rooted = orphans-put s.projects t s.tasks h v.rooted;
}

pub task_add-IsSound :
    (t : Task) (s : Db)
    → any (at Tasks.id_of t.id) s.tasks ≡ false
    → is_orphan s.projects t ≡ false
    → IsSound s
    → IsSound (record s { tasks = t ∷ s.tasks })
task_add-IsSound t s fresh h v = record {
  ids = record { projects = v.ids.projects; tasks = (fresh, v.ids.tasks) };
  rooted = rw (h, v.rooted);
}

pub swept-IsSound :
    (now : Instant) (i : Uuid) (s : Db)
    → IsSound s
    → IsSound (record s { tasks = swept now i s.tasks })
swept-IsSound now i s v = record {
  ids = record { projects = v.ids.projects; tasks = Distinct-swept now i s.tasks v.ids.tasks };
  rooted = orphans-swept now i s.projects s.tasks ∙ v.rooted;
}
