-- ===== src/Http/Api/Contract.antt =====
-- The endpoints of projects and tasks, for a user that `get_current_user` let in, against the catalog.
use task_mgt_app.Base.{
  ℕ, ◌≡◌, refl, Bool, true, false, Option, none, some, arith, Bool-cases, inl, inr,
}
use task_mgt_app.Auth.World.{Env, Draws}
use task_mgt_app.Catalog.{Catalog, Request, Answer, promise}
use task_mgt_app.Catalog as Catalog
use task_mgt_app.Db.{Db, Session, ◌>>=◌, lift, is_complete, get_db, commit}
use task_mgt_app.Entity.{Uuid, Instant}
use task_mgt_app.Errors.{Exception, Result, ok, err, integrity_error, response_validation_error}
use task_mgt_app.Http.Api.{
  Call, post_project, read_project, patch_project, remove_project, post_task, read_task, patch_task,
  remove_task, a_project, a_task, no_content, Reply, Body, plain, AppState,
}
use task_mgt_app.Http.Api.Serve.{end_session, on_session}
use task_mgt_app.Http.Projects.{project_read}
use task_mgt_app.Http.Schemas.{
  is_valid_project, is_valid_project_update, is_valid_task, is_valid_task_update,
}
use task_mgt_app.Http.Tasks.{task_read}

-- The request of the catalog that a call of a user is; the calls of accounts and listings are none.
unfoldable pub request_of : Draws → Instant → Uuid → Call → Option Request
request_of draws now o (post_project p) =
    some (Catalog.post_project draws.id now o p.name p.description)
request_of draws now o (read_project i) = some (Catalog.read_project i o)
request_of draws now o (patch_project i fields) = some (Catalog.patch_project now i o fields)
request_of draws now o (remove_project i) = some (Catalog.remove_project now i o)
request_of draws now o (post_task i fields) = some (Catalog.post_task draws.id now o i fields)
request_of draws now o (read_task i) = some (Catalog.read_task i o)
request_of draws now o (patch_task i fields) = some (Catalog.patch_task now i o fields)
request_of draws now o (remove_task i) = some (Catalog.remove_task now i o)
request_of draws now o _ = none

-- The schema of the body.
unfoldable pub is_valid_call : Call → Bool
is_valid_call (post_project p) = is_valid_project p
is_valid_call (patch_project _ fields) = is_valid_project_update fields
is_valid_call (post_task _ fields) = is_valid_task fields
is_valid_call (patch_task _ fields) = is_valid_task_update fields
is_valid_call _ = true

-- The status of a success.
unfoldable pub success_of : Call → ℕ
success_of (post_project _) = 201
success_of (post_task _ _) = 201
success_of (remove_project _) = 204
success_of (remove_task _) = 204
success_of _ = 200

-- An answer of a service as the response model of its endpoint takes it.
abbrev pub seen : {A B : Type 0} → (A → Result B) → Result A → Result B
seen f (ok a) = f a
seen f (err e) = err e

-- A NOT NULL column that is empty is refused by the response model, before the commit would do it. No
-- handler takes either exception: both are Starlette's own 500.
abbrev pub plainly {ℓ} : {A : Type ℓ} → Result A → Result A
plainly (ok a) = ok a
plainly (err response_validation_error) = err integrity_error
plainly (err e) = err e

-- The response to an answer of the catalog; a refusal is still an exception.
abbrev pub replied : {A : Type 0} → ℕ → (A → Body) → Result A → Result Reply
replied http_status body (ok a) = ok (plain http_status (body a))
replied http_status body (err e) = err e

unfoldable pub reply_for : ℕ → Answer → Result Reply
reply_for http_status (Catalog.a_project r) =
    plainly (replied http_status (λ p. a_project p) (seen project_read r))
reply_for http_status (Catalog.a_task r) =
    plainly (replied http_status (λ t. a_task t) (seen task_read r))
reply_for http_status (Catalog.nothing r) = plainly (replied http_status (λ _. no_content) r)

-- How a call of a service ends, for the response model of its endpoint: it raises, the object is
-- taken, or it is refused and the commit would fail.
pub data Settles {A B : Type 0} (f : A → Result B) : Result A × Db → Type 0 where
  raises : {r : Result A × Db} (e : Exception) (t : Db) → r ≡ (err e, t) → Settles f r
  reads : {r : Result A × Db} (a : A) (b : B) (t : Db) → r ≡ (ok a, t) → f a ≡ ok b → Settles f r
  unread :
      {r : Result A × Db} (a : A) (t : Db)
      → r ≡ (ok a, t)
      → f a ≡ err response_validation_error
      → is_complete t ≡ false
      → Settles f r

abbrev pub viewed : {A B : Type 0} → (A → Result B) → Result A × Db → Result B × Db
viewed f (ok a, s) = (f a, s)
viewed f (err e, s) = (err e, s)

pub bind-lift :
    {A B : Type 0} (f : A → Result B) (act : Session A) (s : Db)
    → (act >>= (λ a. lift (f a))) s ≡ viewed f (act s)
bind-lift f act s = ground arith

module _ {env : Env} (st : AppState env) where
  -- What an endpoint leaves, against what the service would.
  abbrev Matches :
      {A : Type 0} → Result Reply → Result Reply × AppState env → Result A × Db → Type 0
  Matches expected x r = (plainly x.0 ≡ expected) × (x.1 ≡ record st { db = r.1 })

  pub end_session_lem :
      {A : Type 0} (n : ℕ) (body : A → Body) (r : Result A × Db)
      → Matches (plainly (replied n body r.0)) (end_session (λ a. plain n (body a)) st r) r
  unfolding end_session
  end_session_lem n body (ok a, s) = (refl, refl)
  end_session_lem n body (err e, s) = (refl, refl)

  commit_lem :
      {A B : Type 0} (n : ℕ) (body : B → Body) (f : A → Result B) (r : Result A × Db)
      → Settles f r
      → Matches
          (plainly (replied n body (seen f (commit st.db r).0)))
          (end_session (λ b. plain n (body b)) st (commit st.db (viewed f r)))
          (commit st.db r)
  unfolding end_session commit
  commit_lem n body f r (raises e t h) = rw h (refl, refl)
  commit_lem n body f r (reads a b t h k) = elim (Bool-cases (is_complete t)) [
    | inl flushed ↦ rw (h, k, flushed, k) (refl, refl)
    | inr refused ↦ rw (h, k, refused) (refl, refl)
  ]
  commit_lem n body f r (unread a t h k partial) = rw (h, k, partial) (refl, refl)

  pub on_session_lem :
      {A B : Type 0} (n : ℕ) (body : B → Body) (f : A → Result B) (act : Session A)
      → Settles f (act st.db)
      → Matches
          (plainly (replied n body (seen f (get_db act st.db).0)))
          (on_session (λ b. plain n (body b)) (act >>= (λ a. lift (f a))) st)
          (get_db act st.db)
  unfolding on_session get_db
  on_session_lem n body f act h = rw (bind-lift f act st.db) (commit_lem n body f (act st.db) h)
