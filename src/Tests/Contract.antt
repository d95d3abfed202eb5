-- ===== src/Tests/Contract.antt =====
-- A request of ann's for her own project, with her access token.
use task_mgt_app.Base.{◌≡◌, refl, true, none, some, ap}
use task_mgt_app.Auth.Access.{current_user}
use task_mgt_app.Auth.Deps.{get_current_user}
use task_mgt_app.Catalog.{promise}
use task_mgt_app.Catalog as Catalog
use task_mgt_app.Catalog.View.{Represents, view}
use task_mgt_app.Errors.{ok}
use task_mgt_app.Http.Api.{patch_project, HttpRequest}
use task_mgt_app.Http.Api.Contract.{request_of, is_valid_call, success_of, plainly, reply_for}
use task_mgt_app.Http.Api.Honoured.{responded, honoured}
use task_mgt_app.Http.Api.Serve.{serve}
use task_mgt_app.Http.RequestId.{request_id_of}
use task_mgt_app.Http.Schemas.{is_valid_project_update}
use task_mgt_app.Projects.Model.{ProjectUpdate}
use task_mgt_app.Tests.Api.{fast_api, state}
use task_mgt_app.Tests.Auth.{env, draws, ann, with_ann}
use task_mgt_app.Tests.Auth.Sessions.{access, access-IsAccessToken}
use task_mgt_app.Tests.Http.{starlette}
use task_mgt_app.Tests.Sql.{sql}
use task_mgt_app.Tests.Store.{store, like, store-IsConsistent}

abbrev renaming : ProjectUpdate
renaming = record { name = some (some "garage"); description = none }

abbrev rename : HttpRequest
rename = record {
  method = "PATCH";
  path = "/api/v1/projects/1";
  x_request_id = none;
  authorization = some access;
  call = patch_project 1 renaming;
}

admitted : (get_current_user env access with_ann).0 ≡ ok ann
unfolding task_mgt_app.Auth.Fake.get_by_id
admitted = ap (λ r. r.0) (current_user env 5 ann with_ann access-IsAccessToken refl)

asked : request_of draws 100 5 rename.call ≡ some (Catalog.patch_project 100 1 5 renaming)
unfolding request_of
asked = refl

valid : is_valid_call rename.call ≡ true
unfolding is_valid_call is_valid_project_update
valid = refl

honoured_example :
    let d = serve env fast_api sql like starlette draws "id" 3 rename none state in
    let (promised, catalog) = promise (view store) (Catalog.patch_project 100 1 5 renaming) in
    (plainly d.result
      ≡ responded starlette (request_id_of none "id") (reply_for (success_of rename.call) promised))
    × Represents d.state.db catalog
    × (d.state.world ≡ with_ann)
honoured_example =
    honoured env fast_api sql like starlette draws "id" 3 rename access none state ann
      (Catalog.patch_project 100 1 5 renaming) store-IsConsistent refl admitted asked valid
