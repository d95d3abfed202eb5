-- ===== src/Migration.antt =====
-- alembic/versions/e8221a570455_create_users_projects_tasks_tables.py: `upgrade` and `downgrade` on
-- the schema of a database. The operations of Alembic on PostgreSQL are a parameter.
pub mod RoundTrip
pub mod Env
use task_mgt_app.Base.{
  ℕ, String, ◌≡◌, Bool, true, false, not, ◌&&◌, Option, none, some, List, [], ◌∷◌, append, any,
  filter, map, str_eq, if◌then◌else◌,
}

pub data ColumnType : Type 0 where
  string : ℕ → ColumnType
  text boolean uuid timestamp date : ColumnType
  enum : String → List String → ColumnType

pub record Column : Type 0 where
  pub name : String
  pub kind : ColumnType
  pub nullable : Bool

pub record Table : Type 0 where
  pub name : String
  pub columns : List Column
  -- the tables that foreign keys refer to
  pub references : List String

pub record Index : Type 0 where
  pub name : String
  pub table : String
  pub columns : List String
  pub unique : Bool
  -- the condition of a partial index
  pub postgresql_where : String

-- What a database has: tables, indexes, and the names of enum types.
pub record Schema : Type 0 where
  pub tables : List Table
  pub indexes : List Index
  pub types : List String

abbrev pub has_table : String → List Table → Bool
has_table n l = any (λ t. str_eq t.name n) l

abbrev pub has_index : String → List Index → Bool
has_index n l = any (λ i. str_eq i.name n) l

abbrev pub has_type : String → List String → Bool
has_type n l = any (λ t. str_eq t n) l

-- The enum types of a table's columns.
abbrev pub types_of : List Column → List String
types_of [] = []
types_of (c ∷ l) =
    let rest = types_of l in
    elim c.kind [
      | string n ↦ rest
      | text ↦ rest
      | boolean ↦ rest
      | uuid ↦ rest
      | timestamp ↦ rest
      | date ↦ rest
      | enum n values ↦ n ∷ rest
    ]

abbrev pub is_used : String → List Table → Bool
is_used n l = any (λ t. has_type n (types_of t.columns)) l

abbrev pub all_missing : List String → List String → Bool
all_missing [] l = true
all_missing (n ∷ ns) l = not (has_type n l) && all_missing ns l

abbrev pub all_present : List String → List Table → Bool
all_present [] l = true
all_present (n ∷ ns) l = has_table n l && all_present ns l

-- `none` is an error of the database, which aborts the migration.
pub record Operations : Type 0 where
  pub create_table : Table → Schema → Option Schema
  -- creates the enum types of the columns too, and fails if one is there
  pub create_table_lem :
      (t : Table) (s : Schema)
      → create_table t s ≡ (
          if not (has_table t.name s.tables)
            && (all_missing (types_of t.columns) s.types && all_present t.references s.tables)
          then some
              (record s { tables = t ∷ s.tables; types = append (types_of t.columns) s.types })
          else none)
  pub create_index : Index → Schema → Option Schema
  pub create_index_lem :
      (i : Index) (s : Schema)
      → create_index i s ≡ (
          if not (has_index i.name s.indexes) && has_table i.table s.tables
          then some (record s { indexes = i ∷ s.indexes })
          else none)
  pub drop_index : String → Schema → Option Schema
  pub drop_index_lem :
      (n : String) (s : Schema)
      → drop_index n s ≡ (
          if has_index n s.indexes
          then some (record s { indexes = filter (λ i. not (str_eq i.name n)) s.indexes })
          else none)
  -- takes the indexes of the table along, and leaves the enum types of its columns
  pub drop_table : String → Schema → Option Schema
  pub drop_table_lem :
      (n : String) (s : Schema)
      → drop_table n s ≡ (
          if has_table n s.tables && not (any (λ t. any (λ r. str_eq r n) t.references) s.tables)
          then some (record s {
            tables = filter (λ t. not (str_eq t.name n)) s.tables;
            indexes = filter (λ i. not (str_eq i.table n)) s.indexes;
          })
          else none)
  -- `sa.Enum(name=…).drop(…, checkfirst=True)`: fails for a type that a column has
  pub drop_type : String → Schema → Option Schema
  pub drop_type_lem :
      (n : String) (s : Schema)
      → drop_type n s ≡ (
          if is_used n s.tables
          then none
          else some (record s { types = filter (λ t. not (str_eq t n)) s.types }))

abbrev pub column : String → ColumnType → Bool → Column
column n k nullable = record { name = n; kind = k; nullable = nullable }

-- The columns of `Entity`, which end every table.
abbrev pub entity_columns : List Column
entity_columns =
    column "id" uuid false
    ∷ column "created_at" timestamp false
    ∷ column "updated_at" timestamp false
    ∷ column "deleted_at" timestamp true
    ∷ []

abbrev pub users : Table
users = record {
  name = "users";
  columns =
      column "email" (string 320) false
      ∷ column "password_hash" (string 255) false
      ∷ column "full_name" (string 255) false
      ∷ column "is_email_verified" boolean false
      ∷ column "is_active" boolean false
      ∷ entity_columns;
  references = [];
}

abbrev pub users_index : Index
users_index = record {
  name = "ix_users_email_active";
  table = "users";
  columns = "email" ∷ [];
  unique = true;
  postgresql_where = "deleted_at IS NULL";
}

abbrev pub projects : Table
projects = record {
  name = "projects";
  columns =
      column "owner_id" uuid false
      ∷ column "name" (string 255) false
      ∷ column "description" text true
      ∷ entity_columns;
  references = "users" ∷ [];
}

abbrev pub projects_index : Index
projects_index = record {
  name = "ix_projects_owner_active";
  table = "projects";
  columns = "owner_id" ∷ [];
  unique = false;
  postgresql_where = "deleted_at IS NULL";
}

abbrev pub tasks : Table
tasks = record {
  name = "tasks";
  columns =
      column "project_id" uuid false
      ∷ column "title" (string 255) false
      ∷ column "description" text true
      ∷ column "status" (enum "task_status" ("todo" ∷ "in_progress" ∷ "done" ∷ [])) false
      ∷ column "priority" (enum "task_priority" ("low" ∷ "medium" ∷ "high" ∷ [])) false
      ∷ column "due_date" date true
      ∷ entity_columns;
  references = "projects" ∷ [];
}

abbrev pub tasks_index : Index
tasks_index = record {
  name = "ix_tasks_project_status_active";
  table = "tasks";
  columns = "project_id" ∷ "status" ∷ [];
  unique = false;
  postgresql_where = "deleted_at IS NULL";
}

infixl 5 ◌then_run◌
abbrev pub ◌then_run◌ : Option Schema → (Schema → Option Schema) → Option Schema
none then_run f = none
(some s) then_run f = f s

unfoldable pub upgrade : Operations → Schema → Option Schema
upgrade op s =
    op.create_table users s
    then_run op.create_index users_index
    then_run op.create_table projects
    then_run op.create_index projects_index
    then_run op.create_table tasks
    then_run op.create_index tasks_index

unfoldable pub downgrade : Operations → Schema → Option Schema
downgrade op s =
    op.drop_index "ix_tasks_project_status_active" s
    then_run op.drop_table "tasks"
    then_run op.drop_index "ix_projects_owner_active"
    then_run op.drop_table "projects"
    then_run op.drop_index "ix_users_email_active"
    then_run op.drop_table "users"
    then_run op.drop_type "task_status"
    then_run op.drop_type "task_priority"
