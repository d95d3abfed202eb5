-- ===== src/Tests/Operations.antt =====
-- Examples for the migration, the log records and the rules for passwords.
use task_mgt_app.Base.{
  String, ◌≡◌, refl, not, ◌&&◌, none, some, [], ◌∷◌, append, any, filter, str_eq, if◌then◌else◌,
}
use task_mgt_app.Base.Dict.{Dict}
use task_mgt_app.Migration.{
  Schema, Operations, has_table, has_index, is_used, all_missing, all_present, types_of, upgrade,
  downgrade, ◌then_run◌,
}
use task_mgt_app.Migration.RoundTrip.{IsClear, migrated, round_trip}

abbrev pub operations : Operations
operations = record {
  create_table = λ t s.
      if not (has_table t.name s.tables)
        && (all_missing (types_of t.columns) s.types && all_present t.references s.tables)
      then some (record s { tables = t ∷ s.tables; types = append (types_of t.columns) s.types })
      else none;
  create_table_lem = λ t s. refl;
  create_index = λ i s.
      if not (has_index i.name s.indexes) && has_table i.table s.tables
      then some (record s { indexes = i ∷ s.indexes })
      else none;
  create_index_lem = λ i s. refl;
  drop_index = λ n s.
      if has_index n s.indexes
      then some (record s { indexes = filter (λ i. not (str_eq i.name n)) s.indexes })
      else none;
  drop_index_lem = λ n s. refl;
  drop_table = λ n s.
      if has_table n s.tables && not (any (λ t. any (λ r. str_eq r n) t.references) s.tables)
      then some (record s {
        tables = filter (λ t. not (str_eq t.name n)) s.tables;
        indexes = filter (λ i. not (str_eq i.table n)) s.indexes;
      })
      else none;
  drop_table_lem = λ n s. refl;
  drop_type = λ n s.
      if is_used n s.tables
      then none
      else some (record s { types = filter (λ t. not (str_eq t n)) s.types });
  drop_type_lem = λ n s. refl;
}

-- A database with Alembic's own table.
abbrev pub fresh_schema : Schema
fresh_schema = record {
  tables = record { name = "alembic_version"; columns = []; references = [] } ∷ [];
  indexes = [];
  types = [];
}

fresh_schema-IsClear : IsClear fresh_schema
fresh_schema-IsClear = record {
  no_users = refl;
  no_projects = refl;
  no_tasks = refl;
  free_users = refl;
  free_projects = refl;
  free_tasks = refl;
  no_users_index = refl;
  no_projects_index = refl;
  no_tasks_index = refl;
  no_status = refl;
  no_priority = refl;
  unused_status = refl;
  unused_priority = refl;
  no_index_of_users = refl;
  no_index_of_projects = refl;
  no_index_of_tasks = refl;
}

round_trip_example :
    (upgrade operations fresh_schema ≡ some (migrated operations fresh_schema))
    × ((upgrade operations fresh_schema then_run downgrade operations) ≡ some fresh_schema)
round_trip_example = round_trip operations fresh_schema fresh_schema-IsClear

abbrev pub log_record : Dict String
log_record = ("message", "login") ∷ ("password", "Secret1!") ∷ []
