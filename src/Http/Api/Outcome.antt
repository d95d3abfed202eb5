-- ===== src/Http/Api/Outcome.antt =====
-- How an endpoint ends: with a response of its own, with one of FastAPI's, or with an exception, and
-- what is then left of the state.
use task_mgt_app.Base.{
  String, ◌≡◌, refl, Bool, true, false, Option, none, some, arith, Bool-cases, inl, inr,
}
use task_mgt_app.Auth.Deps.{get_current_user}
use task_mgt_app.Auth.Model.{User}
use task_mgt_app.Auth.World.{Env, World, Draws, Action}
use task_mgt_app.Db.{Db, Session, is_complete, commit, get_db}
use task_mgt_app.Errors.{Exception, Result, ok, err}
use task_mgt_app.Http.Api.{
  Call, post_register, post_verify_email, post_login, post_refresh, post_logout,
  post_forgot_password, post_reset_password, me, post_project, projects, read_project,
  patch_project, remove_project, post_task, tasks, read_task, patch_task, remove_task, Body,
  a_problem, a_detail, Reply, plain, FastApi, unprocessable, AppState, is_success,
}
use task_mgt_app.Http.Api.Serve.{
  end_auth, on_auth, end_session, on_session, validated, when_valid, enter, credentialed, as_user,
  run_as, run,
}
use task_mgt_app.Sql.{Sql}

abbrev pub is_problem : Body → Bool
is_problem (a_problem _) = true
is_problem _ = false

-- A reply of an endpoint.
pub record IsOwn (reply : Reply) : Type 0 where
  pub success : is_success (ok reply) ≡ true
  pub body : is_problem reply.body ≡ false

module _ {env : Env} where
  -- The users and the tables of projects and tasks are as before.
  pub record IsKept (st st' : AppState env) : Type 0 where
    pub db : st'.db ≡ st.db
    pub users : st'.world.users ≡ st.world.users

  pub data Outcome (st : AppState env) : Result Reply × AppState env → Type 0 where
    responded :
        (reply : Reply) (st' : AppState env)
        → is_success (ok reply) ≡ true
        → is_problem reply.body ≡ false
        → Outcome st (ok reply, st')
    detailed : (reply : Reply) → is_problem reply.body ≡ false → Outcome st (ok reply, st)
    raised : (e : Exception) (st' : AppState env) → IsKept st st' → Outcome st (err e, st')

  module _ {A : Type 0} (reply : A → Reply) (own : (a : A) → IsOwn (reply a))
      (st : AppState env) where
    end_auth-Outcome : (r : Result A × World env) → Outcome st (end_auth reply st r)
    unfolding end_auth
    end_auth-Outcome (ok a, w) = responded (reply a) _ (own a).success (own a).body
    end_auth-Outcome (err e, w) = raised e _ (record { db = refl; users = refl })

    pub on_auth-Outcome : (act : Action env A) → Outcome st (on_auth reply act st)
    unfolding on_auth
    on_auth-Outcome act = end_auth-Outcome (act st.world)

    end_session-Outcome : (r : Result A × Db) → Outcome st (end_session reply st (commit st.db r))
    unfolding end_session commit
    end_session-Outcome (ok a, s) = elim (Bool-cases (is_complete s)) [
      | inl flushed ↦ rw flushed (responded (reply a) _ (own a).success (own a).body)
      | inr refused ↦ rw refused (raised _ _ (record { db = refl; users = refl }))
    ]
    end_session-Outcome (err e, s) = raised e _ (record { db = refl; users = refl })

    pub on_session-Outcome : (act : Session A) → Outcome st (on_session reply act st)
    unfolding on_session get_db
    on_session-Outcome act = end_session-Outcome (act st.db)

  pub when_valid-Outcome :
      (valid : Bool) (k : AppState env → Result Reply × AppState env) (st : AppState env)
      → Outcome st (k st)
      → Outcome st (when_valid valid k st)
  unfolding when_valid
  when_valid-Outcome true k st h = h
  when_valid-Outcome false k st h = detailed unprocessable refl

  pub validated-Outcome :
      {R : Type 0} (o : Option R) (k : R → AppState env → Result Reply × AppState env)
      (st : AppState env)
      → ((r : R) → Outcome st (k r st))
      → Outcome st (validated o k st)
  unfolding validated
  validated-Outcome none k st h = detailed unprocessable refl
  validated-Outcome (some r) k st h = h r

pub get_current_user_kept :
    (env : Env) (credentials : String) (w : World env) → (get_current_user env credentials w).1 ≡ w
unfolding get_current_user
get_current_user_kept env credentials w = ground arith

module _ (env : Env) (fast_api : FastApi) (sql : Sql) (ilike : String → String → Bool) where
  run_as-Outcome :
      (draws : Draws) (call : Call) (user : User) (st : AppState env)
      → Outcome st (run_as env fast_api sql ilike draws call user st)
  unfolding run_as
  run_as-Outcome draws (post_project payload) user st =
      when_valid-Outcome _ _ st
        (on_session-Outcome _ (λ _. record { success = refl; body = refl }) st _)
  run_as-Outcome draws (projects page_params) user st =
      on_session-Outcome _ (λ _. record { success = refl; body = refl }) st _
  run_as-Outcome draws (read_project project_id) user st =
      on_session-Outcome _ (λ _. record { success = refl; body = refl }) st _
  run_as-Outcome draws (patch_project project_id payload) user st =
      when_valid-Outcome _ _ st
        (on_session-Outcome _ (λ _. record { success = refl; body = refl }) st _)
  run_as-Outcome draws (remove_project project_id) user st =
      on_session-Outcome _ (λ _. record { success = refl; body = refl }) st _
  run_as-Outcome draws (post_task project_id payload) user st =
      when_valid-Outcome _ _ st
        (on_session-Outcome _ (λ _. record { success = refl; body = refl }) st _)
  run_as-Outcome draws (tasks page_params project_id status priority search) user st =
      when_valid-Outcome _ _ st
        (on_session-Outcome _ (λ _. record { success = refl; body = refl }) st _)
  run_as-Outcome draws (read_task task_id) user st =
      on_session-Outcome _ (λ _. record { success = refl; body = refl }) st _
  run_as-Outcome draws (patch_task task_id payload) user st =
      when_valid-Outcome _ _ st
        (on_session-Outcome _ (λ _. record { success = refl; body = refl }) st _)
  run_as-Outcome draws (remove_task task_id) user st =
      on_session-Outcome _ (λ _. record { success = refl; body = refl }) st _
  run_as-Outcome draws (post_register _) user st = responded _ _ refl refl
  run_as-Outcome draws (post_verify_email _) user st = responded _ _ refl refl
  run_as-Outcome draws (post_login _) user st = responded _ _ refl refl
  run_as-Outcome draws (post_refresh _) user st = responded _ _ refl refl
  run_as-Outcome draws (post_logout _) user st = responded _ _ refl refl
  run_as-Outcome draws (post_forgot_password _) user st = responded _ _ refl refl
  run_as-Outcome draws (post_reset_password _) user st = responded _ _ refl refl
  run_as-Outcome draws me user st = responded _ _ refl refl

  enter-Outcome :
      (k : User → AppState env → Result Reply × AppState env) (st : AppState env)
      (r : Result User × World env)
      → r.1 ≡ st.world
      → ((user : User) → Outcome st (k user st))
      → Outcome st (enter env fast_api k st r)
  unfolding enter
  enter-Outcome k st (ok user, w) h each = rw h (each user)
  enter-Outcome k st (err e, w) h each = raised e _ (record { db = refl; users = refl })

  credentialed-Outcome :
      (k : User → AppState env → Result Reply × AppState env) (st : AppState env)
      (credentials : Option String)
      → ((user : User) → Outcome st (k user st))
      → Outcome st (credentialed env fast_api k st credentials)
  unfolding credentialed
  credentialed-Outcome k st none each = detailed (plain fast_api.bearer_refused a_detail) refl
  credentialed-Outcome k st (some credentials) each =
      enter-Outcome k st (get_current_user env credentials st.world)
        (get_current_user_kept env credentials st.world) each

  as_user-Outcome :
      (authorization : Option String) (k : User → AppState env → Result Reply × AppState env)
      (st : AppState env)
      → ((user : User) → Outcome st (k user st))
      → Outcome st (as_user env fast_api authorization k st)
  unfolding as_user
  as_user-Outcome authorization k st each =
      credentialed-Outcome k st (fast_api.bearer authorization) each

  pub run-Outcome :
      (draws : Draws) (authorization : Option String) (call : Call) (st : AppState env)
      → Outcome st (run env fast_api sql ilike draws authorization call st)
  unfolding run
  run-Outcome draws authorization (post_register payload) st =
      validated-Outcome _ _ st
        (λ r. on_auth-Outcome _ (λ _. record { success = refl; body = refl }) st _)
  run-Outcome draws authorization (post_verify_email token) st =
      on_auth-Outcome _ (λ _. record { success = refl; body = refl }) st _
  run-Outcome draws authorization (post_login payload) st =
      validated-Outcome _ _ st
        (λ r. on_auth-Outcome _ (λ _. record { success = refl; body = refl }) st _)
  run-Outcome draws authorization (post_refresh refresh_token) st =
      on_auth-Outcome _ (λ _. record { success = refl; body = refl }) st _
  run-Outcome draws authorization (post_logout refresh_token) st =
      on_auth-Outcome _ (λ _. record { success = refl; body = refl }) st _
  run-Outcome draws authorization (post_forgot_password email) st =
      validated-Outcome _ _ st
        (λ r. on_auth-Outcome _ (λ _. record { success = refl; body = refl }) st _)
  run-Outcome draws authorization (post_reset_password payload) st =
      validated-Outcome _ _ st
        (λ r. on_auth-Outcome _ (λ _. record { success = refl; body = refl }) st _)
  run-Outcome draws authorization me st =
      as_user-Outcome authorization (run_as env fast_api sql ilike draws me) st
        (λ user. run_as-Outcome draws me user st)
  run-Outcome draws authorization (post_project payload) st =
      as_user-Outcome authorization (run_as env fast_api sql ilike draws (post_project payload)) st
        (λ user. run_as-Outcome draws (post_project payload) user st)
  run-Outcome draws authorization (projects page_params) st =
      as_user-Outcome authorization (run_as env fast_api sql ilike draws (projects page_params)) st
        (λ user. run_as-Outcome draws (projects page_params) user st)
  run-Outcome draws authorization (read_project project_id) st =
      as_user-Outcome authorization (run_as env fast_api sql ilike draws (read_project project_id))
        st (λ user. run_as-Outcome draws (read_project project_id) user st)
  run-Outcome draws authorization (patch_project project_id payload) st =
      as_user-Outcome authorization
        (run_as env fast_api sql ilike draws (patch_project project_id payload)) st
        (λ user. run_as-Outcome draws (patch_project project_id payload) user st)
  run-Outcome draws authorization (remove_project project_id) st =
      as_user-Outcome authorization
        (run_as env fast_api sql ilike draws (remove_project project_id)) st
        (λ user. run_as-Outcome draws (remove_project project_id) user st)
  run-Outcome draws authorization (post_task project_id payload) st =
      as_user-Outcome authorization
        (run_as env fast_api sql ilike draws (post_task project_id payload)) st
        (λ user. run_as-Outcome draws (post_task project_id payload) user st)
  run-Outcome draws authorization (tasks page_params project_id status priority search) st =
      as_user-Outcome authorization
        (run_as env fast_api sql ilike draws (tasks page_params project_id status priority search))
        st
        (λ user. run_as-Outcome draws (tasks page_params project_id status priority search) user st)
  run-Outcome draws authorization (read_task task_id) st =
      as_user-Outcome authorization (run_as env fast_api sql ilike draws (read_task task_id)) st
        (λ user. run_as-Outcome draws (read_task task_id) user st)
  run-Outcome draws authorization (patch_task task_id payload) st =
      as_user-Outcome authorization
        (run_as env fast_api sql ilike draws (patch_task task_id payload)) st
        (λ user. run_as-Outcome draws (patch_task task_id payload) user st)
  run-Outcome draws authorization (remove_task task_id) st =
      as_user-Outcome authorization (run_as env fast_api sql ilike draws (remove_task task_id)) st
        (λ user. run_as-Outcome draws (remove_task task_id) user st)
