-- ===== src/Tasks/Filters.antt =====
-- What the filters of `TaskRepository.list_for_owner` of app/tasks/repository.py let pass, said without its
-- conditions.
use task_mgt_app.Base.{
  ℕ, String, ◌≡◌, refl, Bool, ◌&&◌, is_none, ◌||◌, ◌++◌, Option, none, some, true, false, ◌==◌,
}
use task_mgt_app.Entity.{Uuid}
use task_mgt_app.Sql.{Sql}
use task_mgt_app.Tasks.Model.{
  Task, TaskStatus, todo, in_progress, done, TaskPriority, low, medium, high, same_status,
  same_priority,
}
use task_mgt_app.Tasks.Repository.{
  TaskFilters, passes, in_project, with_status, with_priority, matches, found_by,
}

-- Whether an optional value is there and meets a condition, and whether a filter that may not be set
-- lets something pass.
abbrev pub holds : {A : Type 0} → (A → Bool) → Option A → Bool
holds p none = false
holds p (some a) = p a

abbrev pub allows : {A : Type 0} → (A → Bool) → Option A → Bool
allows p none = true
allows p (some a) = p a

abbrev pub status_number : TaskStatus → ℕ
status_number todo = 0
status_number in_progress = 1
status_number done = 2

abbrev pub priority_number : TaskPriority → ℕ
priority_number low = 0
priority_number medium = 1
priority_number high = 2

status_lem :
    (o : Option TaskStatus) (s : TaskStatus)
    → same_status o s ≡ holds (λ a. status_number a == status_number s) o
status_lem none s = refl
status_lem (some todo) todo = refl
status_lem (some todo) in_progress = refl
status_lem (some todo) done = refl
status_lem (some in_progress) todo = refl
status_lem (some in_progress) in_progress = refl
status_lem (some in_progress) done = refl
status_lem (some done) todo = refl
status_lem (some done) in_progress = refl
status_lem (some done) done = refl

priority_lem :
    (o : Option TaskPriority) (s : TaskPriority)
    → same_priority o s ≡ holds (λ a. priority_number a == priority_number s) o
priority_lem none s = refl
priority_lem (some low) low = refl
priority_lem (some low) medium = refl
priority_lem (some low) high = refl
priority_lem (some medium) low = refl
priority_lem (some medium) medium = refl
priority_lem (some medium) high = refl
priority_lem (some high) low = refl
priority_lem (some high) medium = refl
priority_lem (some high) high = refl

module _ (ilike : String → String → Bool) where
  -- A search text that is empty is none; another stands in the title or in the description.
  abbrev pub is_found : Option String → Task → Bool
  is_found none t = true
  is_found (some String.[]) t = true
  is_found (some (String.◌∷◌ c s)) t =
      holds (λ text. ilike text ("%" ++ (String.◌∷◌ c s ++ "%"))) t.title
      || holds (λ text. ilike text ("%" ++ (String.◌∷◌ c s ++ "%"))) t.description

  -- A live task with the project, the status, the priority and the text that are asked for.
  abbrev pub is_wanted : TaskFilters → Task → Bool
  is_wanted filters t =
      is_none t.deleted_at
      && (allows (λ i. t.project_id == i) filters.project_id
          && (allows (λ s. holds (λ a. status_number a == status_number s) t.status) filters.status
              && (allows (λ s. holds (λ a. priority_number a == priority_number s) t.priority)
                    filters.priority
                  && is_found filters.search t)))

  module _ (sql : Sql) where
    in_project_lem :
        (o : Option Uuid) (t : Task) → in_project sql ilike o t ≡ allows (λ i. t.project_id == i) o
    unfolding in_project
    in_project_lem none t = refl
    in_project_lem (some i) t = refl

    with_status_lem :
        (o : Option TaskStatus) (t : Task)
        → with_status sql ilike o t
          ≡ allows (λ s. holds (λ a. status_number a == status_number s) t.status) o
    unfolding with_status
    with_status_lem none t = refl
    with_status_lem (some s) t = status_lem t.status s

    with_priority_lem :
        (o : Option TaskPriority) (t : Task)
        → with_priority sql ilike o t
          ≡ allows (λ s. holds (λ a. priority_number a == priority_number s) t.priority) o
    unfolding with_priority
    with_priority_lem none t = refl
    with_priority_lem (some s) t = priority_lem t.priority s

    matches_lem :
        (o : Option String) (pattern : String)
        → matches sql ilike o pattern ≡ holds (λ text. ilike text pattern) o
    unfolding matches
    matches_lem none pattern = refl
    matches_lem (some text) pattern = refl

    found_by_lem : (o : Option String) (t : Task) → found_by sql ilike o t ≡ is_found o t
    unfolding found_by
    found_by_lem none t = refl
    found_by_lem (some String.[]) t = refl
    found_by_lem (some (String.◌∷◌ c s)) t = rw (matches_lem t.title, matches_lem t.description)

    pub wanted_lem :
        (filters : TaskFilters) (t : Task)
        → is_none t.deleted_at && passes sql ilike filters t ≡ is_wanted filters t
    unfolding passes
    wanted_lem filters t = rw (
      in_project_lem filters.project_id t,
      with_status_lem filters.status t,
      with_priority_lem filters.priority t,
      found_by_lem filters.search t,
    )
