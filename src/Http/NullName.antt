-- ===== src/Http/NullName.antt =====
-- A PATCH of a project with `"name": null`: `update_project` of app/projects/router.py in the
-- transaction of `get_db` of app/core/db.py.
use task_mgt_app.Base.{◌≡◌, ap, ◌∙◌, none, some}
use task_mgt_app.Auth.Model.{User}
use task_mgt_app.Consistency.Rows.{IsSound}
use task_mgt_app.Db.{Db, get_db, commit}
use task_mgt_app.Entity.{Uuid, Instant}
use task_mgt_app.Errors.{ok, err, response_validation_error}
use task_mgt_app.Http.Api.Contract.{viewed, bind-lift}
use task_mgt_app.Http.Projects.{project_read, update_project}
use task_mgt_app.Projects.Model.{Project, ProjectUpdate, set_fields, flushed}
use task_mgt_app.Projects.Ownership.{id_of, first-get, update_lem}
use task_mgt_app.Projects.Service as Service
use task_mgt_app.Repository.Lookup.{put}
use task_mgt_app.Sql.{Sql}

read_null_name :
    (fields : ProjectUpdate) (p : Project)
    → fields.name ≡ some none
    → project_read (set_fields fields p) ≡ err response_validation_error
unfolding project_read set_fields
read_null_name fields p h = rw h

-- In tables in which ids stand once and every task has a row for its project, let a PATCH set the
-- name of a project of the caller to null. The service returns the project without a name, its row
-- changed in the session. The endpoint ends in a ResponseValidationError before the commit, and
-- `get_db` rolls back: the tables are as before.
pub null_name_refused :
    (sql : Sql) (user : User) (now : Instant) (i : Uuid) (fields : ProjectUpdate) (p : Project)
    (s : Db)
    → IsSound s
    → (Service.get sql i user.id s).0 ≡ ok p
    → fields.name ≡ some none
    → (Service.update sql now i user.id fields s ≡ (
      ok (set_fields fields p),
      record s { projects = put id_of (flushed now fields p) s.projects },
    ))
      × (get_db (update_project sql user now i fields) s ≡ (err response_validation_error, s))
unfolding get_db commit update_project
null_name_refused sql user now i fields p s v h null =
    let found = first-get sql i user.id p s v.ids.projects h in
    let ran = update_lem sql now i user.id fields p s v.ids.projects found in
    let left : Db = record s { projects = put id_of (flushed now fields p) s.projects } in
    (
      ran,
      ap (commit s) (
            bind-lift project_read (Service.update sql now i user.id fields) s
            ∙ ap (viewed project_read) ran)
          ∙ ap (λ r. commit s (r, left)) (read_null_name fields p null),
    )
