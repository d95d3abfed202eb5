-- ===== src/Auth/Repository.antt =====
-- `class UserRepository` of app/auth/repository.py over the SQL engine, with the partial unique
-- index of app/auth/models.py.
pub mod Rows
pub mod Finds
pub mod Store
use task_mgt_app.Base.{String, ◌≡◌, refl, Bool, not, ◌&&◌, Option, List, any, str_eq, is_none, ◌==◌}
use task_mgt_app.Auth.Model.{User}
use task_mgt_app.Entity.{Uuid}
use task_mgt_app.Errors.{Result}
use task_mgt_app.Repository.{Model, active}
use task_mgt_app.Repository as Base
use task_mgt_app.Sql.{Sql}

abbrev pub user_model : Model User
user_model = record {
  entity = λ u. u.entity;
  with_entity = λ e u. record u { entity = e };
  entity-with_entity = λ e u. refl;
}

-- Two rows that `ix_users_email_active` does not let stand side by side.
unfoldable pub clashes : User → User → Bool
clashes u v = is_none u.deleted_at && (is_none v.deleted_at && str_eq v.email u.email)

-- Whether the primary key and the index accept a new row.
unfoldable pub accepts : User → List User → Bool
accepts u t = not (any (λ v. v.id == u.id) t) && not (any (clashes u) t)

module _ (sql : Sql) (lower : String → String) where
  -- The condition of `get_by_email`.
  unfoldable pub has_email : String → User → Bool
  unfolding active
  has_email email u = active sql user_model u && str_eq u.email (lower email)

  unfoldable pub get_by_email : String → List User → Result (Option User)
  unfolding has_email
  get_by_email email t = sql.scalar_one_or_none (sql.select (has_email email) t)

  unfoldable pub add : User → List User → Result User × List User
  unfolding Base.add
  add instance_ t = Base.add sql user_model (accepts instance_ t) instance_ t
