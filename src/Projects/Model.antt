-- ===== src/Projects/Model.antt =====
-- `class Project` of app/projects/models.py, and the bodies of a creation and of a PATCH.
use task_mgt_app.Base.{
  String, Bool, true, false, not, ◌&&◌, Option, none, some, refl, is_none, str_eq,
}
use task_mgt_app.Entity.{Entity, Uuid, Instant, stamped}
use task_mgt_app.Repository.{Model}

-- An object can hold `None` where the column is NOT NULL: a flush of it fails.
pub record Project : Type 0 where
  pub entity : Entity
  pub open entity use *
  pub owner_id : Uuid
  pub name : Option String
  pub description : Option String

unfoldable pub is_complete : Project → Bool
is_complete p = not (is_none p.name)

abbrev pub project_model : Model Project
project_model = record {
  entity = λ p. p.entity;
  with_entity = λ e p. record p { entity = e };
  entity-with_entity = λ e p. refl;
}

-- `Project(owner_id=…, name=…, description=…)` as it is inserted.
unfoldable pub new_project : Uuid → Instant → Uuid → String → Option String → Project
new_project id now owner_id name description = record {
  entity = record { id = id; created_at = now; updated_at = now; deleted_at = none };
  owner_id = owner_id;
  name = some name;
  description = description;
}

-- `ProjectUpdate` as `model_dump(exclude_unset=True)` leaves it: `none` is a field that the request
-- did not set, `some none` one that it set to null.
pub record ProjectUpdate : Type 0 where
  pub name : Option (Option String)
  pub description : Option (Option String)

abbrev pub set_to {ℓ} : {A : Type ℓ} → Option A → A → A
set_to none old = old
set_to (some new) old = new

-- The loop of `setattr`.
unfoldable pub set_fields : ProjectUpdate → Project → Project
set_fields fields p = record p {
  name = set_to fields.name p.name;
  description = set_to fields.description p.description;
}

abbrev pub same_option {ℓ} : {A : Type ℓ} → (A → A → Bool) → Option A → Option A → Bool
same_option same none none = true
same_option same (some a) (some b) = same a b
same_option same _ _ = false

-- Whether an assignment leaves a column as it is.
abbrev pub leaves {ℓ} : {A : Type ℓ} → (A → A → Bool) → Option (Option A) → Option A → Bool
leaves same none old = true
leaves same (some new) old = same_option same new old

-- Whether the loop of `setattr` has changed a column.
unfoldable pub is_modified : ProjectUpdate → Project → Bool
is_modified fields p =
    not (leaves str_eq fields.name p.name && leaves str_eq fields.description p.description)

-- The row that the flush behind the loop leaves.
unfoldable pub flushed : Instant → ProjectUpdate → Project → Project
unfolding set_fields is_modified
flushed now fields p = record (set_fields fields p) {
  entity = stamped (is_modified fields p) now p.entity;
}
