-- ===== src/Repository.antt =====
-- `class SoftDeleteRepository` of app/common/base_repository.py, for any model: its queries as
-- functions of the table's rows.
pub mod Lookup
use task_mgt_app.Base.{ℕ, ◌≡◌, Bool, true, ◌&&◌, Option, List, ◌==◌, is_none}
use task_mgt_app.Entity.{Entity, Uuid, Instant, mark_deleted, stamped}
use task_mgt_app.Errors.{Result}
use task_mgt_app.Sql.{Sql}

-- A model that inherits `Entity`: its columns, and how a write of them leaves the others alone.
pub record Model (A : Type 0) : Type 0 where
  pub entity : A → Entity
  pub with_entity : Entity → A → A
  pub entity-with_entity : (e : Entity) (a : A) → entity (with_entity e a) ≡ e

module _ (sql : Sql) {A : Type 0} (model : Model A) where
  -- The condition of `_active`.
  unfoldable pub active : A → Bool
  active a = is_none (model.entity a).deleted_at

  unfoldable pub has_id : Uuid → A → Bool
  has_id entity_id a = (model.entity a).id == entity_id

  unfoldable pub get_by_id : Uuid → List A → Result (Option A)
  unfolding active has_id
  get_by_id entity_id t =
      sql.scalar_one_or_none (sql.select (λ a. active a && has_id entity_id a) t)

  -- `add`, given whether the table's constraints accept the row.
  unfoldable pub add : Bool → A → List A → Result A × List A
  add accepted instance_ t = sql.insert accepted instance_ t

  -- A row written over the row with its id.
  unfoldable pub overwrite : A → List A → List A
  unfolding has_id
  overwrite a t = sql.update (has_id (model.entity a).id) (λ _. a) t

  -- The flush of an object, given whether a column of it has changed.
  unfoldable pub write : Bool → Instant → A → List A → List A
  unfolding overwrite
  write modified now a t = overwrite (model.with_entity (stamped modified now (model.entity a)) a) t

  unfoldable pub delete : Instant → A → List A → List A
  unfolding write mark_deleted
  delete now instance_ t =
      write true now (model.with_entity (mark_deleted now (model.entity instance_)) instance_) t

  unfoldable pub count : (A → Bool) → List A → ℕ
  count stmt t = sql.count (sql.select stmt t)
