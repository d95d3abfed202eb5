-- ===== src/Migration/RoundTrip.antt =====
-- What the migration makes of a database that has none of its objects, and its downgrade of that.
use task_mgt_app.Base.{
  String, ◌≡◌, refl, Bool, false, not, some, List, [], ◌∷◌, any, filter, str_eq, arith,
}
use task_mgt_app.Migration.{
  Schema, Table, Operations, has_table, has_index, has_type, is_used, upgrade, downgrade, users,
  projects, tasks, users_index, projects_index, tasks_index, ◌then_run◌,
}

filter_absent :
    {A : Type 0} (p : A → Bool) (l : List A) → any p l ≡ false → filter (λ a. not (p a)) l ≡ l
filter_absent p [] h = refl
filter_absent p (a ∷ l) h = ground (arith, filter_absent p l)

abbrev pub is_referenced : String → List Table → Bool
is_referenced n l = any (λ t. any (λ r. str_eq r n) t.references) l

-- A database without the objects of the migration.
pub record IsClear (s : Schema) : Type 0 where
  pub no_users : has_table "users" s.tables ≡ false
  pub no_projects : has_table "projects" s.tables ≡ false
  pub no_tasks : has_table "tasks" s.tables ≡ false
  pub free_users : is_referenced "users" s.tables ≡ false
  pub free_projects : is_referenced "projects" s.tables ≡ false
  pub free_tasks : is_referenced "tasks" s.tables ≡ false
  pub no_users_index : has_index "ix_users_email_active" s.indexes ≡ false
  pub no_projects_index : has_index "ix_projects_owner_active" s.indexes ≡ false
  pub no_tasks_index : has_index "ix_tasks_project_status_active" s.indexes ≡ false
  pub no_status : has_type "task_status" s.types ≡ false
  pub no_priority : has_type "task_priority" s.types ≡ false
  pub unused_status : is_used "task_status" s.tables ≡ false
  pub unused_priority : is_used "task_priority" s.tables ≡ false
  pub no_index_of_users : any (λ i. str_eq i.table "users") s.indexes ≡ false
  pub no_index_of_projects : any (λ i. str_eq i.table "projects") s.indexes ≡ false
  pub no_index_of_tasks : any (λ i. str_eq i.table "tasks") s.indexes ≡ false

module _ (op : Operations) (s : Schema) where
  abbrev pub migrated : Schema
  migrated = record {
    tables = tasks ∷ projects ∷ users ∷ s.tables;
    indexes = tasks_index ∷ projects_index ∷ users_index ∷ s.indexes;
    types = "task_status" ∷ "task_priority" ∷ s.types;
  }

  upgrade_lem : IsClear s → upgrade op s ≡ some migrated
  unfolding upgrade
  upgrade_lem h = simp (
    op.create_table_lem, op.create_index_lem, h.no_users, h.no_projects, h.no_tasks,
    h.no_users_index, h.no_projects_index, h.no_tasks_index, h.no_status, h.no_priority,
  )

  downgrade_lem : IsClear s → downgrade op migrated ≡ some s
  unfolding downgrade
  downgrade_lem h = simp (
    op.drop_table_lem,
    op.drop_index_lem,
    op.drop_type_lem,
    h.unused_status,
    h.unused_priority,
    h.free_users,
    h.free_projects,
    h.free_tasks,
    filter_absent (λ t. str_eq t.name "tasks") s.tables h.no_tasks,
    filter_absent (λ t. str_eq t.name "projects") s.tables h.no_projects,
    filter_absent (λ t. str_eq t.name "users") s.tables h.no_users,
    filter_absent (λ i. str_eq i.name "ix_tasks_project_status_active") s.indexes h.no_tasks_index,
    filter_absent (λ i. str_eq i.name "ix_projects_owner_active") s.indexes h.no_projects_index,
    filter_absent (λ i. str_eq i.name "ix_users_email_active") s.indexes h.no_users_index,
    filter_absent (λ i. str_eq i.table "tasks") s.indexes h.no_index_of_tasks,
    filter_absent (λ i. str_eq i.table "projects") s.indexes h.no_index_of_projects,
    filter_absent (λ i. str_eq i.table "users") s.indexes h.no_index_of_users,
    filter_absent (λ t. str_eq t "task_status") s.types h.no_status,
    filter_absent (λ t. str_eq t "task_priority") s.types h.no_priority,
  )

  -- In a database that has none of the tables, indexes and enum types of the migration, and nothing
  -- that refers to those names - a foreign key, an index, a column -, `upgrade` succeeds and adds
  -- exactly them, and `downgrade` behind it restores the database.
  pub round_trip :
      IsClear s → (upgrade op s ≡ some migrated) × ((upgrade op s then_run downgrade op) ≡ some s)
  round_trip h = (upgrade_lem h, rw upgrade_lem (downgrade_lem h))
