-- ===== src/Auth/World.antt =====
-- What the auth service runs in: the code that it calls, the state of the user store, of Redis and
-- of the clock, and actions on that state that return or raise. What was written before a raise
-- stays written.
pub mod Keeps
use task_mgt_app.Base.{ℕ, ◌+◌, String, Bool, Option, none, some, List, ℤ, if◌then◌else◌}
use task_mgt_app.Auth.Model.{User}
use task_mgt_app.Auth.Protocol.{UserRepositoryProtocol}
use task_mgt_app.Entity.{Uuid, Instant}
use task_mgt_app.Errors.{Exception, Result, ok, err}
use task_mgt_app.Libraries.{Libraries}
use task_mgt_app.Redis.{Redis}
use task_mgt_app.Settings.{Settings, IsPositive}

pub record Env : Type 1 where
  pub libs : Libraries
  pub settings : Settings
  pub positive : IsPositive settings
  pub users : UserRepositoryProtocol libs.lower
  pub redis : Redis

pub record World (env : Env) : Type 0 where
  pub users : env.users.State
  pub redis : env.redis.State
  pub now : Instant

-- What the random generators return during one call.
pub record Draws : Type 0 where
  pub id : Uuid
  pub salt : ℕ
  pub token : String
  pub access_jti : Uuid
  pub refresh_jti : Uuid
  pub spare_jti : Uuid

abbrev pub Action : Env → Type 0 → Type 0
Action env A = World env → Result A × World env

module _ {env : Env} where
  infixl 5 ◌>>=◌ ◌>>◌
  abbrev pub ◌>>=◌ : {A B : Type 0} → Action env A → (A → Action env B) → Action env B
  ◌>>=◌ m f w = let (r, w') = m w in elim r [ ok a ↦ f a w' | err e ↦ (err e, w') ]

  abbrev pub ◌>>◌ : {A B : Type 0} → Action env A → Action env B → Action env B
  m >> k = m >>= λ _. k

  abbrev pub pure : {A : Type 0} → A → Action env A
  pure a w = (ok a, w)

  abbrev pub raise : {A : Type 0} → Exception → Action env A
  raise e w = (err e, w)

  abbrev pub lift : {A : Type 0} → Result A → Action env A
  lift r w = (r, w)

  abbrev pub or_raise : {A : Type 0} → Option A → Exception → Action env A
  or_raise none e = raise e
  or_raise (some a) e = pure a

  abbrev pub raise_if : Bool → Exception → Action env (Unit {0})
  raise_if b e = if b then raise e else pure tt

-- Time passes: keys of Redis expire.
unfoldable pub wait : {env : Env} → ℕ → World env → World env
wait {env} n w = record w { redis = env.redis.elapse n w.redis; now = w.now + n }

-- The calls on the two stores.
module _ (env : Env) where
  abbrev pub clock : Action env Instant
  clock w = (ok w.now, w)

  abbrev pub users_get_by_id : Uuid → Action env (Option User)
  users_get_by_id id w = (env.users.get_by_id id w.users, w)

  abbrev pub users_get_by_email : String → Action env (Option User)
  users_get_by_email email w = (env.users.get_by_email email w.users, w)

  abbrev pub users_add : User → Action env User
  users_add user w = let (r, s) = env.users.add user w.users in (r, record w { users = s })

  abbrev pub users_write : User → Action env (Unit {0})
  users_write user w = (ok tt, record w { users = env.users.write user w.users })

  abbrev pub redis_get : String → Action env (Option String)
  redis_get key w = (ok (env.redis.get key w.redis), w)

  abbrev pub redis_ttl : String → Action env ℤ
  redis_ttl key w = (ok (env.redis.ttl key w.redis), w)

  abbrev pub redis_smembers : String → Action env (List String)
  redis_smembers key w = (ok (env.redis.smembers key w.redis), w)

  abbrev pub redis_set : String → String → ℕ → Action env (Unit {0})
  redis_set key value ex w = (ok tt, record w { redis = env.redis.set key value ex w.redis })

  abbrev pub redis_delete : List String → Action env (Unit {0})
  redis_delete keys w = (ok tt, record w { redis = env.redis.delete keys w.redis })

  abbrev pub redis_incr : String → Action env ℕ
  redis_incr key w = let (n, s) = env.redis.incr key w.redis in (ok n, record w { redis = s })

  abbrev pub redis_expire : String → ℕ → Action env (Unit {0})
  redis_expire key seconds w = (ok tt, record w { redis = env.redis.expire key seconds w.redis })

  abbrev pub redis_sadd : String → String → Action env (Unit {0})
  redis_sadd key member w = (ok tt, record w { redis = env.redis.sadd key member w.redis })

  abbrev pub redis_srem : String → String → Action env (Unit {0})
  redis_srem key member w = (ok tt, record w { redis = env.redis.srem key member w.redis })
