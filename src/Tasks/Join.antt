-- ===== src/Tasks/Join.antt =====
-- The join of tasks with their projects in app/tasks/repository.py, where project ids stand once.
use task_mgt_app.Base.{
  ◌≡◌, refl, ap, ◌∙◌, Bool, false, ◌&&◌, List, [], ◌∷◌, map, filter, any, map-append, filter-append,
  arith, ◌==◌, is_none, if◌then◌else◌,
}
use task_mgt_app.Entity.{Uuid}
use task_mgt_app.Projects.Model.{Project}
use task_mgt_app.Projects.Ownership.{id_of}
use task_mgt_app.Repository.Lookup.{Distinct, at}
use task_mgt_app.Sql.{one_of, pairs}
use task_mgt_app.Tasks.Model.{Task}
use task_mgt_app.Tasks.Repository.{task_of}

-- Whether a task's project is a live one of an owner's.
abbrev pub has_owner : Uuid → List Project → Task → Bool
has_owner o l t = any (λ p. p.id == t.project_id && (p.owner_id == o && is_none p.deleted_at)) l

abbrev pub joins : Task → Project → Bool
joins t p = p.id == t.project_id

module _ (o : Uuid) (keep : Task → Bool) where
  -- The condition of a statement on the rows of the join.
  abbrev pub row_passes : Task × Project → Bool
  row_passes r = keep r.0 && (r.1.owner_id == o && is_none r.1.deleted_at)

  no_rows :
      (t : Task) (l : List Project)
      → any (at id_of t.project_id) l ≡ false
      → (map (λ r. r.0) (filter row_passes (map (λ b. (t, b)) (filter (joins t) l))) ≡ [])
        × (has_owner o l t ≡ false)
  no_rows t [] h = (refl, refl)
  no_rows t (p ∷ l) h = ground (arith, no_rows t l)

  rows_of :
      (t : Task) (l : List Project)
      → Distinct id_of l
      → map (λ r. r.0) (filter row_passes (map (λ b. (t, b)) (filter (joins t) l)))
        ≡ (if keep t && has_owner o l t then t ∷ [] else [])
  rows_of t [] d = ground arith
  rows_of t (p ∷ l) (fresh, d) = ground (arith, rows_of t l d, no_rows t l)

  pub rows_lem :
      (ts : List Task) (l : List Project)
      → Distinct id_of l
      → map (λ r. r.0) (filter row_passes (pairs joins ts l))
        ≡ filter (λ t. keep t && has_owner o l t) ts
  rows_lem [] l d = refl
  rows_lem (t ∷ ts) l d =
      ap (map (λ r. r.0))
        (filter-append row_passes (map (λ b. (t, b)) (filter (joins t) l)) (pairs joins ts l))
      ∙ map-append (λ r. r.0) (filter row_passes (map (λ b. (t, b)) (filter (joins t) l)))
          (filter row_passes (pairs joins ts l))
      ∙ rw (rows_of t l d, rows_lem ts l d) (ground arith)

pub task_of-one_of : (l : List (Task × Project)) → task_of (one_of l) ≡ one_of (map (λ r. r.0) l)
task_of-one_of [] = refl
task_of-one_of (a ∷ []) = refl
task_of-one_of (a ∷ b ∷ l) = refl
