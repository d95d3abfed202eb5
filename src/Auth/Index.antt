-- ===== src/Auth/Index.antt =====
-- The invariant of the refresh tokens in Redis: every token that is stored for a user is in that
-- user's set, and the sets do not expire. Here: the commands on other keys, and time.
pub mod Tokens
pub mod Revoke
use task_mgt_app.Base.{
  ℕ, ◌<◌, String, ◌≡◌, refl, true, false, some, List, [], ◌∷◌, arith, str_eq, ℤ, pos, negsuc,
}
use task_mgt_app.Auth.Keys.{refresh_token_key, user_tokens_key}
use task_mgt_app.Redis.{Redis, contains, survives, age}

abbrev pub HasNoExpiry : ℤ → Type 0
HasNoExpiry (pos _) = ⊥
HasNoExpiry (negsuc _) = Unit

module _ (redis : Redis) where
  pub record IsIndexed (s : redis.State) : Type 0 where
    pub listed :
        (jti user : String)
        → redis.get (refresh_token_key jti) s ≡ some user
        → contains jti (redis.smembers (user_tokens_key user) s) ≡ true
    pub kept : (user : String) → HasNoExpiry (redis.ttl (user_tokens_key user) s)

  -- A change that adds no token and leaves the sets alone.
  keep :
      (s t : redis.State)
      → ((jti user : String)
          → redis.get (refresh_token_key jti) t ≡ some user
          → redis.get (refresh_token_key jti) s ≡ some user)
      → ((user : String)
          → redis.smembers (user_tokens_key user) t ≡ redis.smembers (user_tokens_key user) s)
      → ((user : String) → HasNoExpiry (redis.ttl (user_tokens_key user) t))
      → IsIndexed s
      → IsIndexed t
  keep s t tokens sets alive h = record {
    listed = λ jti user e. rw (sets user) (h.listed jti user (tokens jti user e));
    kept = alive;
  }

  -- Whether a key is neither a token's nor a set's.
  pub record IsOther (k : String) : Type 0 where
    pub no_token : (jti : String) → str_eq k (refresh_token_key jti) ≡ false
    pub no_set : (user : String) → str_eq k (user_tokens_key user) ≡ false

  pub set_other :
      (k v : String) (ex : ℕ) (s : redis.State)
      → 0 < ex
      → IsOther k
      → IsIndexed s
      → IsIndexed (redis.set k v ex s)
  set_other k v ex s p o h =
      keep s (redis.set k v ex s) (λ jti user e. simp (redis.get-set, p, o.no_token) at e)
        (λ user. simp (redis.smembers-set, o.no_set))
        (λ user. simp (redis.ttl-set, p, o.no_set) (h.kept user)) h

  abbrev pub AllOther : List String → Type 0
  AllOther [] = Unit
  AllOther (k ∷ ks) = IsOther k × AllOther ks

  other_tokens :
      (ks : List String) (jti : String) → AllOther ks → contains (refresh_token_key jti) ks ≡ false
  other_tokens [] jti o = refl
  other_tokens (k ∷ ks) jti (o, os) = rw o.no_token (other_tokens ks jti os)

  other_sets :
      (ks : List String) (user : String) → AllOther ks → contains (user_tokens_key user) ks ≡ false
  other_sets [] user o = refl
  other_sets (k ∷ ks) user (o, os) = rw o.no_set (other_sets ks user os)

  pub delete_other :
      (ks : List String) (s : redis.State)
      → AllOther ks
      → IsIndexed s
      → IsIndexed (redis.delete ks s)
  delete_other ks s o h =
      keep s (redis.delete ks s) (λ jti user e. simp (redis.get-delete, other_tokens ks jti o) at e)
        (λ user. simp (redis.smembers-delete, other_sets ks user o))
        (λ user. simp (redis.ttl-delete, other_sets ks user o) (h.kept user)) h

  pub incr_other :
      (k : String) (s : redis.State) → IsOther k → IsIndexed s → IsIndexed (redis.incr k s).1
  incr_other k s o h =
      keep s (redis.incr k s).1 (λ jti user e. simp (redis.get-incr, o.no_token) at e)
        (λ user. simp (redis.smembers-incr, o.no_set))
        (λ user. simp (redis.ttl-incr, o.no_set) (h.kept user)) h

  pub expire_other :
      (k : String) (n : ℕ) (s : redis.State)
      → 0 < n
      → IsOther k
      → IsIndexed s
      → IsIndexed (redis.expire k n s)
  expire_other k n s p o h =
      keep s (redis.expire k n s) (λ jti user e. simp (redis.get-expire, p) at e)
        (λ user. simp (redis.smembers-expire, p))
        (λ user. simp (redis.ttl-expire, o.no_set) (h.kept user)) h

  token_elapse :
      (n : ℕ) (jti user : String) (s : redis.State)
      → redis.get (refresh_token_key jti) (redis.elapse n s) ≡ some user
      → redis.get (refresh_token_key jti) s ≡ some user
  token_elapse n jti user s e = ground (arith, redis.get-elapse n (refresh_token_key jti) s)

  survives_always : (n : ℕ) (t : ℤ) → HasNoExpiry t → survives n t ≡ true
  survives_always n (pos m) h = absurd h
  survives_always n (negsuc m) h = refl

  age_always : (n : ℕ) (t : ℤ) → HasNoExpiry t → HasNoExpiry (age n t)
  age_always n (pos m) h = absurd h
  age_always n (negsuc m) h = tt

  pub elapse-IsIndexed : (n : ℕ) (s : redis.State) → IsIndexed s → IsIndexed (redis.elapse n s)
  elapse-IsIndexed n s h =
      keep s (redis.elapse n s) (λ jti user e. token_elapse n jti user s e)
        (λ user. simp (redis.smembers-elapse, survives_always n _ (h.kept user)))
        (λ user. rw redis.ttl-elapse (age_always n _ (h.kept user))) h
