-- ===== src/Catalog/Projects.antt =====
-- The requests on projects keep their promises.
pub mod Rows
use task_mgt_app.Base.{
  String, ◌≡◌, refl, sym, ap, ◌∙◌, Bool, true, false, not, ◌&&◌, Option, none, some, ◌∷◌, any,
  arith, ◌==◌, Option-cases, Bool-cases, inl, inr,
}
use task_mgt_app.Catalog.{
  Catalog, post_project, read_project, patch_project, remove_project, promise, put_project,
  drop_project, add_project, a_project, nothing,
}
use task_mgt_app.Catalog.Commit.{
  get_db_ok, get_db_refused, get_db_err, is_partial, IsComplete-of, IsComplete-to,
  incomplete_projects, swept_complete, found_complete,
}
use task_mgt_app.Catalog.Serve.{serve, answer_with}
use task_mgt_app.Catalog.Simulation.{Simulates, simulates, owned_lem}
use task_mgt_app.Catalog.View.{
  Represents, live_project, Pins-live_project, first-put_kept, first-put_gone, first-swept,
  any-put_none,
}
use task_mgt_app.Consistency.Rows.{any-swept}
use task_mgt_app.Consistency.Requests.{projects_add_lem}
use task_mgt_app.Consistency.Transactions.{IsConsistent}
use task_mgt_app.Db.{Db}
use task_mgt_app.Entity.{Uuid, Instant, mark_deleted}
use task_mgt_app.Errors.{ok, err, integrity_error}
use task_mgt_app.Projects.Cascade.{delete_lem, deleted_row, swept}
use task_mgt_app.Projects.Model.{
  Project, ProjectUpdate, new_project, set_fields, flushed, is_complete,
}
use task_mgt_app.Projects.Ownership.{
  id_of, is_owned_sound, Pins-is_owned, get_missing, get_found, update_missing, update_lem,
  delete_missing,
}
use task_mgt_app.Projects.Repository.{is_owned}
use task_mgt_app.Projects.Service as Service
use task_mgt_app.Repository.{active}
use task_mgt_app.Repository.Lookup.{
  at, first, first_sound, put, any-put, any-put_row, any-first_pinned,
}
use task_mgt_app.Sql.{Sql}
use task_mgt_app.Catalog.Projects.Rows.{
  put_project-Represents, drop_project-Represents, add_project-Represents, found_present,
  live-flushed, id-flushed, complete-flushed, id-deleted, dead-deleted_row, complete-deleted_row,
  new_row,
}

module _ (sql : Sql) (ilike : String → String → Bool) where
  pub read_project-Simulates :
      (i o : Uuid) (s : Db) (c : Catalog)
      → IsConsistent s
      → Represents s c
      → Simulates sql ilike (read_project i o) s c
  unfolding serve promise
  read_project-Simulates i o s c w v =
      let lookup = owned_lem s c v sql i o w.sound.ids.projects in
      elim (Option-cases (first id_of (is_owned sql i o) s.projects)) [
        | inl missing ↦
            simulates sql ilike (read_project i o) s s c c (a_project (err Service.not_found))
              (ap (answer_with a_project)
                (get_db_err _ s _ s (get_missing sql i o s w.sound.ids.projects missing)))
              (rw (lookup, missing)) v
        | inr (p, found) ↦
            simulates sql ilike (read_project i o) s s c c (a_project (ok p))
              (ap (answer_with a_project)
                (get_db_ok _ s p s (get_found sql i o p s w.sound.ids.projects found) w.complete))
              (rw (lookup, found)) v
      ]

  pub patch_project-Simulates :
      (now : Instant) (i o : Uuid) (fields : ProjectUpdate) (s : Db) (c : Catalog)
      → IsConsistent s
      → Represents s c
      → Simulates sql ilike (patch_project now i o fields) s c
  unfolding serve promise
  patch_project-Simulates now i o fields s c w v =
      let d = w.sound.ids.projects in
      let lookup = owned_lem s c v sql i o d in
      let full = IsComplete-of s w.complete in
      elim (Option-cases (first id_of (is_owned sql i o) s.projects)) [
        | inl missing ↦
            simulates sql ilike (patch_project now i o fields) s s c c
              (a_project (err Service.not_found))
              (ap (answer_with a_project)
                (get_db_err _ s _ s (update_missing sql now i o fields s d missing)))
              (rw (lookup, missing)) v
        | inr (p, found) ↦
            let new = set_fields fields p in
            let row = flushed now fields p in
            let ran = update_lem sql now i o fields p s d found in
            let (same, present) = found_present sql i o p s found in
            let same_id : row.id ≡ i = id-flushed now fields p ∙ same in
            let whole = complete-flushed now fields p in
            elim (Bool-cases (is_complete new)) [
              | inl filled ↦
                  simulates sql ilike (patch_project now i o fields) s _ c (put_project c i row)
                    (a_project (ok new))
                    (ap (answer_with a_project) (
                      get_db_ok _ s new _ ran (
                        IsComplete-to _ (record {
                          projects =
                              any-put_none id_of is_partial row s.projects (rw (whole, filled))
                                full.projects;
                          tasks = full.tasks;
                        }))))
                    (rw (lookup, found, filled))
                    (put_project-Represents i row s c v same_id
                      (live-flushed sql now i o fields p
                        (first_sound id_of (is_owned sql i o) p s.projects found))
                      present)
              | inr refused ↦
                  simulates sql ilike (patch_project now i o fields) s s c c
                    (a_project (err integrity_error))
                    (ap (answer_with a_project) (
                      get_db_refused _ s new _ ran (
                        incomplete_projects _ (
                          any-put_row id_of is_partial row s.projects (rw (same_id, present))
                            (rw (whole, refused))))))
                    (rw (lookup, found, refused)) v
            ]
      ]

  pub remove_project-Simulates :
      (now : Instant) (i o : Uuid) (s : Db) (c : Catalog)
      → IsConsistent s
      → Represents s c
      → Simulates sql ilike (remove_project now i o) s c
  unfolding serve promise mark_deleted
  remove_project-Simulates now i o s c w v =
      let d = w.sound.ids.projects in
      let lookup = owned_lem s c v sql i o d in
      let full = IsComplete-of s w.complete in
      elim (Option-cases (first id_of (is_owned sql i o) s.projects)) [
        | inl missing ↦
            simulates sql ilike (remove_project now i o) s s c c (nothing (err Service.not_found))
              (ap (answer_with nothing)
                (get_db_err _ s _ s (delete_missing sql i o now s d missing)))
              (rw (lookup, missing)) v
        | inr (p, found) ↦
            let (same, present) = found_present sql i o p s found in
            let row = deleted_row sql now p in
            let whole =
              complete-deleted_row sql now p
              ∙ found_complete id_of (is_owned sql i o) is_complete p s.projects found
                  full.projects in
            simulates sql ilike (remove_project now i o) s _ c (drop_project c row.id)
              (nothing (ok tt))
              (ap (answer_with nothing) (
                get_db_ok _ s tt _ (delete_lem sql now i o p s d found) (
                  IsComplete-to _ (record {
                    projects =
                        any-put_none id_of is_partial row s.projects (rw whole) full.projects;
                    tasks = swept_complete now p.id s.tasks ∙ full.tasks;
                  }))))
              (rw (lookup, found, id-deleted sql now p, same))
              (rw (id-deleted sql now p) at
                (drop_project-Represents now row s c w v (dead-deleted_row sql now row.id p)))
      ]

  create_lem :
      (id : Uuid) (now : Instant) (o : Uuid) (name : String) (description : Option String) (s : Db)
      → Service.create sql id now o name description s
        ≡ Service.projects_add sql (new_project id now o name description) s
  unfolding Service.create
  create_lem id now o name description s = refl

  pub post_project-Simulates :
      (id : Uuid) (now : Instant) (o : Uuid) (name : String) (description : Option String) (s : Db)
      (c : Catalog)
      → IsConsistent s
      → Represents s c
      → Simulates sql ilike (post_project id now o name description) s c
  unfolding serve promise new_project
  post_project-Simulates id now o name description s c w v =
      let p = new_project id now o name description in
      let (same, alive, whole) = new_row id now o name description in
      let full = IsComplete-of s w.complete in
      let added = create_lem id now o name description s ∙ projects_add_lem sql p s in
      elim (Bool-cases (any (at id_of id) s.projects)) [
        | inl taken ↦
            simulates sql ilike (post_project id now o name description) s s c c
              (a_project (err integrity_error))
              (ap (answer_with a_project) (get_db_err _ s _ s (added ∙ rw (whole, same, taken))))
              (rw (v.projects_used id, taken)) v
        | inr free ↦
            simulates sql ilike (post_project id now o name description) s _ c (add_project c id p)
              (a_project (ok p))
              (ap (answer_with a_project) (
                get_db_ok _ s p _ (added ∙ rw (whole, same, free)) (
                  IsComplete-to _
                    (record { projects = rw (whole, full.projects); tasks = full.tasks }))))
              (rw (v.projects_used id, free)) (rw same at (add_project-Represents p s c v alive))
      ]
