-- ===== src/Projects/Cascade.antt =====
-- The deletion of a project: `ProjectService.delete`, and what it does to the tasks.
use task_mgt_app.Base.{
  ◌≡◌, refl, ◌∙◌, Bool, true, false, not, ◌&&◌, some, List, [], ◌∷◌, map, filter, any, arith, ◌==◌,
  is_none, if◌then◌else◌,
}
use task_mgt_app.Db.{Db}
use task_mgt_app.Entity.{Uuid, Instant, mark_deleted, stamped}
use task_mgt_app.Errors.{ok, err}
use task_mgt_app.Projects.Model.{Project, project_model}
use task_mgt_app.Projects.Ownership.{
  id_of, Pins-is_owned, get_found, get_missing, get_first, first-get, is_owned_sound, write_lem,
}
use task_mgt_app.Projects.Repository.{is_owned}
use task_mgt_app.Projects.Service.{not_found, get, delete}
use task_mgt_app.Repository as Base
use task_mgt_app.Repository.{active}
use task_mgt_app.Repository.Lookup.{
  Distinct, first, put, Distinct-put, first-put_hidden, first-put_other, first_sound,
}
use task_mgt_app.Sql.{Sql}
use task_mgt_app.Tasks.Model.{Task}
use task_mgt_app.Tasks.Repository.{soft_delete_by_project}

-- A task that a project's deletion must mark.
abbrev pub is_live_in : Uuid → Task → Bool
is_live_in project_id t = t.project_id == project_id && is_none t.deleted_at

abbrev pub is_elsewhere : Uuid → Task → Bool
is_elsewhere project_id t = not (t.project_id == project_id)

abbrev pub swept : Instant → Uuid → List Task → List Task
swept now i l =
    map
      (λ t.
        if is_live_in i t
        then record t { entity = stamped true now (mark_deleted now t.entity) }
        else t)
      l

swept_none_live :
    (now : Instant) (i : Uuid) (l : List Task) → any (is_live_in i) (swept now i l) ≡ false
unfolding mark_deleted
swept_none_live now i [] = refl
swept_none_live now i (t ∷ l) = ground (arith, swept_none_live now i l)

swept_elsewhere :
    (now : Instant) (i : Uuid) (l : List Task)
    → filter (is_elsewhere i) (swept now i l) ≡ filter (is_elsewhere i) l
unfolding mark_deleted
swept_elsewhere now i [] = refl
swept_elsewhere now i (t ∷ l) = ground (arith, swept_elsewhere now i l)

module _ (sql : Sql) where
  abbrev pub deleted_row : Instant → Project → Project
  deleted_row now p = record p { entity = stamped true now (mark_deleted now p.entity) }

  soft_delete_lem :
      (now : Instant) (i : Uuid) (l : List Task)
      → soft_delete_by_project sql now i l ≡ swept now i l
  unfolding soft_delete_by_project
  soft_delete_lem now i l = sql.update_lem _ _ l

  delete_row_lem :
      (now : Instant) (p : Project) (t : List Project)
      → Base.delete sql project_model now p t ≡ put id_of (deleted_row now p) t
  unfolding Base.delete Base.write
  delete_row_lem now p t = write_lem sql (deleted_row now p) t

  pub delete_lem :
      (now : Instant) (i o : Uuid) (p : Project) (s : Db)
      → Distinct id_of s.projects
      → first id_of (is_owned sql i o) s.projects ≡ some p
      → delete sql now i o s ≡ (
        ok tt,
        record {
          projects = put id_of (deleted_row now p) s.projects;
          tasks = swept now p.id s.tasks;
        },
      )
  unfolding delete
  delete_lem now i o p s d h = ground (
    arith,
    get_found sql i o p s d h,
    soft_delete_lem now p.id s.tasks,
    delete_row_lem now p s.projects,
  )

  is_owned-deleted :
      (now : Instant) (i o : Uuid) (p : Project) → is_owned sql i o (deleted_row now p) ≡ false
  unfolding is_owned active mark_deleted
  is_owned-deleted now i o p = refl

  id-deleted : (now : Instant) (p : Project) → (deleted_row now p).id ≡ p.id
  unfolding mark_deleted
  id-deleted now p = refl

  -- In a table in which every project id stands once, let `get` return a project to its owner.
  -- `delete` of it returns normally; behind it no user gets the project, every project with another
  -- id is found or not as before by any user, no task of the project is live, and the tasks of
  -- other projects are the same rows in the same order.
  pub cascade :
      (now : Instant) (i o j o' : Uuid) (p : Project) (s : Db)
      → Distinct id_of s.projects
      → (get sql i o s).0 ≡ ok p
      → (i == j) ≡ false
      → let after = (delete sql now i o s).1 in
        ((delete sql now i o s).0 ≡ ok tt)
        × (get sql i o' after ≡ (err not_found, after))
        × ((get sql j o' after).0 ≡ (get sql j o' s).0)
        × (any (is_live_in i) after.tasks ≡ false)
        × (filter (is_elsewhere i) after.tasks ≡ filter (is_elsewhere i) s.tasks)
  cascade now i o j o' p s d h other =
      let found = first-get sql i o p s d h in
      let owned = first_sound id_of (is_owned sql i o) p s.projects found in
      let same_id = (is_owned_sound sql i o p owned).0 in
      let row_id = id-deleted now p ∙ same_id in
      let kept = Distinct-put id_of (deleted_row now p) s.projects d in
      rw (delete_lem now i o p s d found) (
        refl,
        get_missing sql i o' _ kept (
            first-put_hidden id_of (is_owned sql i o') (deleted_row now p) s.projects
              (rw row_id (Pins-is_owned sql i o')) (is_owned-deleted now i o' p)),
        get_first sql j o' s _ d kept (
            first-put_other id_of j (is_owned sql j o') (deleted_row now p) s.projects
              (Pins-is_owned sql j o') (rw row_id other)),
        rw same_id (swept_none_live now i s.tasks),
        rw same_id (swept_elsewhere now i s.tasks),
      )
