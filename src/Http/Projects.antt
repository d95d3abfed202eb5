-- ===== src/Http/Projects.antt =====
-- app/projects/router.py, behind the schemas of app/projects/schemas.py: the endpoints over
-- `ProjectService`, for the user that `get_current_user` found.
use task_mgt_app.Base.{String, Option, none, some, List, [], ◌∷◌}
use task_mgt_app.Auth.Model.{User}
use task_mgt_app.Db.{Session, ◌>>=◌, pure, lift}
use task_mgt_app.Entity.{Uuid, Instant}
use task_mgt_app.Errors.{Result, ok, err, joined, response_validation_error}
use task_mgt_app.Pagination.{PageParams, Page}
use task_mgt_app.Projects.Model.{Project, ProjectUpdate}
use task_mgt_app.Projects.Service as Service
use task_mgt_app.Sql.{Sql}

pub record ProjectCreate : Type 0 where
  pub name : String
  pub description : Option String

pub record ProjectRead : Type 0 where
  pub id : Uuid
  pub owner_id : Uuid
  pub name : String
  pub description : Option String
  pub created_at : Instant
  pub updated_at : Instant

-- The fields of an object as the response model takes them, given its name: `name` is a `str`.
abbrev pub read_named : Project → Option String → Result ProjectRead
read_named p none = err response_validation_error
read_named p (some name) = ok (record {
  id = p.id;
  owner_id = p.owner_id;
  name = name;
  description = p.description;
  created_at = p.created_at;
  updated_at = p.updated_at;
})

-- The response model of an object. FastAPI builds it before the dependencies are left, so that
-- `get_db` rolls back where it is refused.
unfoldable pub project_read : Project → Result ProjectRead
project_read p = read_named p p.name

-- The items of a page, which the endpoint validates itself: its `ValidationError` has no handler
-- either, and stands under the same name here.
unfoldable pub projects_read : List Project → Result (List ProjectRead)
unfolding project_read
projects_read [] = ok []
projects_read (p ∷ l) = joined (project_read p) (projects_read l)

module _ (sql : Sql) (current_user : User) where
  unfoldable pub create_project : Uuid → Instant → ProjectCreate → Session ProjectRead
  create_project id now payload = do
    project ← Service.create sql id now current_user.id payload.name payload.description
    lift (project_read project)

  unfoldable pub list_projects : PageParams → Session (Page ProjectRead)
  list_projects page_params = do
    found ← Service.list sql current_user.id page_params
    items ← lift (projects_read found.0)
    pure (record {
      items = items;
      total = found.1;
      page = page_params.page;
      page_size = page_params.page_size;
    })

  unfoldable pub get_project : Uuid → Session ProjectRead
  get_project project_id = do
    project ← Service.get sql project_id current_user.id
    lift (project_read project)

  unfoldable pub update_project : Instant → Uuid → ProjectUpdate → Session ProjectRead
  update_project now project_id updates = do
    project ← Service.update sql now project_id current_user.id updates
    lift (project_read project)

  unfoldable pub delete_project : Instant → Uuid → Session (Unit {0})
  delete_project now project_id = Service.delete sql now project_id current_user.id
