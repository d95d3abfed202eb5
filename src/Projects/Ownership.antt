-- ===== src/Projects/Ownership.antt =====
-- Who reaches a project through `ProjectService` of app/projects/service.py.
use task_mgt_app.Base.{
  ◌≡◌, refl, ap, ◌∙◌, Bool, true, false, ◌&&◌, ◌==◌, is_none, none, some, List, any, arith,
  Option-cases, inl, inr,
}
use task_mgt_app.Db.{Db}
use task_mgt_app.Entity.{Uuid, Instant}
use task_mgt_app.Errors.{ok, err}
use task_mgt_app.Projects.Model.{Project, project_model, ProjectUpdate, set_fields, flushed}
use task_mgt_app.Projects.Repository.{is_owned, get_by_id_for_owner}
use task_mgt_app.Projects.Service.{not_found, get, update, delete}
use task_mgt_app.Repository as Base
use task_mgt_app.Repository.{active, has_id}
use task_mgt_app.Repository.Lookup.{Distinct, Pins, first, one_of-filter, any-first, put}
use task_mgt_app.Sql.{Sql, one_of}

abbrev pub id_of : Project → Uuid
id_of p = p.id

module _ (sql : Sql) where
  pub is_owned_sound :
      (i o : Uuid) (p : Project)
      → is_owned sql i o p ≡ true
      → (p.id ≡ i) × (p.owner_id ≡ o) × (p.deleted_at ≡ none)
  unfolding is_owned active
  is_owned_sound i o p h = ground arith

  pub Pins-is_owned : (i o : Uuid) → Pins id_of i (is_owned sql i o)
  Pins-is_owned i o p h = (is_owned_sound i o p h).0

  pub get_by_id_for_owner_lem :
      (i o : Uuid) (t : List Project)
      → Distinct id_of t
      → get_by_id_for_owner sql i o t ≡ ok (first id_of (is_owned sql i o) t)
  unfolding get_by_id_for_owner
  get_by_id_for_owner_lem i o t d =
      sql.scalar_one_or_none_lem _
      ∙ ap one_of (sql.select_lem (is_owned sql i o) t)
      ∙ one_of-filter id_of i (is_owned sql i o) t (Pins-is_owned i o) d

  pub get_missing :
      (i o : Uuid) (s : Db)
      → Distinct id_of s.projects
      → first id_of (is_owned sql i o) s.projects ≡ none
      → get sql i o s ≡ (err not_found, s)
  unfolding get
  get_missing i o s d h = ground (arith, get_by_id_for_owner_lem i o s.projects d)

  pub get_found :
      (i o : Uuid) (p : Project) (s : Db)
      → Distinct id_of s.projects
      → first id_of (is_owned sql i o) s.projects ≡ some p
      → get sql i o s ≡ (ok p, s)
  unfolding get
  get_found i o p s d h = ground (arith, get_by_id_for_owner_lem i o s.projects d)

  pub update_missing :
      (now : Instant) (i o : Uuid) (fields : ProjectUpdate) (s : Db)
      → Distinct id_of s.projects
      → first id_of (is_owned sql i o) s.projects ≡ none
      → update sql now i o fields s ≡ (err not_found, s)
  unfolding update
  update_missing now i o fields s d h = ground (arith, get_missing i o s d h)

  pub delete_missing :
      (i o : Uuid) (now : Instant) (s : Db)
      → Distinct id_of s.projects
      → first id_of (is_owned sql i o) s.projects ≡ none
      → delete sql now i o s ≡ (err not_found, s)
  unfolding delete
  delete_missing i o now s d h = ground (arith, get_missing i o s d h)

  -- A live project of a user, under an id.
  abbrev pub is_own : Uuid → Uuid → Project → Bool
  is_own i o p = is_none p.deleted_at && (p.id == i && p.owner_id == o)

  is_owned_lem : (i o : Uuid) (l : List Project) → any (is_owned sql i o) l ≡ any (is_own i o) l
  unfolding is_owned active
  is_owned_lem i o l = refl

  -- In a table in which every project id stands once, and that has no live project under an id
  -- whose owner is a user - it may have no row there, a deleted one, or another user's -, `get`,
  -- `update` and `delete` of ProjectService all answer "Project not found." for that id and user,
  -- and change nothing.
  pub hidden :
      (i o : Uuid) (fields : ProjectUpdate) (now : Instant) (s : Db)
      → Distinct id_of s.projects
      → any (is_own i o) s.projects ≡ false
      → (get sql i o s ≡ (err not_found, s))
        × (update sql now i o fields s ≡ (err not_found, s))
        × (delete sql now i o s ≡ (err not_found, s))
  hidden i o fields now s d h =
      let none_found = any-first id_of (is_owned sql i o) s.projects (rw is_owned_lem h) in
      (
        get_missing i o s d none_found,
        update_missing now i o fields s d none_found,
        delete_missing i o now s d none_found,
      )

  pub write_lem :
      (p : Project) (t : List Project) → Base.overwrite sql project_model p t ≡ put id_of p t
  unfolding Base.overwrite has_id
  write_lem p t = sql.update_lem _ _ t

  pub update_lem :
      (now : Instant) (i o : Uuid) (fields : ProjectUpdate) (p : Project) (s : Db)
      → Distinct id_of s.projects
      → first id_of (is_owned sql i o) s.projects ≡ some p
      → update sql now i o fields s ≡ (
        ok (set_fields fields p),
        record s { projects = put id_of (flushed now fields p) s.projects },
      )
  unfolding update flushed Base.write
  update_lem now i o fields p s d h =
      ground (arith, get_found i o p s d h, write_lem (flushed now fields p) s.projects)

  pub first-get :
      (i o : Uuid) (p : Project) (s : Db)
      → Distinct id_of s.projects
      → (get sql i o s).0 ≡ ok p
      → first id_of (is_owned sql i o) s.projects ≡ some p
  first-get i o p s d h = elim (Option-cases (first id_of (is_owned sql i o) s.projects)) [
    | inl missing ↦ absurd (cc (h, get_missing i o s d missing))
    | inr (q, found) ↦ cc (h, found, get_found i o q s d found)
  ]

  -- What `get` answers depends on the row that is found only.
  pub get_first :
      (i o : Uuid) (s s' : Db)
      → Distinct id_of s.projects
      → Distinct id_of s'.projects
      → first id_of (is_owned sql i o) s'.projects ≡ first id_of (is_owned sql i o) s.projects
      → (get sql i o s').0 ≡ (get sql i o s).0
  get_first i o s s' d d' h = elim (Option-cases (first id_of (is_owned sql i o) s.projects)) [
    | inl missing ↦ cc (get_missing i o s d missing, get_missing i o s' d' (h ∙ missing))
    | inr (q, found) ↦ cc (get_found i o q s d found, get_found i o q s' d' (h ∙ found))
  ]
