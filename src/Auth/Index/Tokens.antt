-- ===== src/Auth/Index/Tokens.antt =====
-- Storing and dropping a refresh token, and the invariant of Auth/Index.antt.
use task_mgt_app.Base.{
  ℕ, ◌<◌, String, ◌≡◌, sym, subst, false, ◌||◌, none, some, [], ◌∷◌, arith, str_eq, str_eq_iff,
  if◌then◌else◌, ℤ, pos, negsuc, Bool-cases, inl, inr,
}
use task_mgt_app.Auth.Index.{HasNoExpiry, IsIndexed}
use task_mgt_app.Auth.Keys.{refresh_token_key, user_tokens_key, key_laws}
use task_mgt_app.Redis.{Redis, contains, created}

module _ (redis : Redis) where
  -- The same user by another name.
  alive_at :
      (s : redis.State) (u v : String)
      → u ≡ v
      → HasNoExpiry (redis.ttl (user_tokens_key u) s)
      → HasNoExpiry (redis.ttl (user_tokens_key v) s)
  alive_at s u v e h = subst (λ x. HasNoExpiry (redis.ttl (user_tokens_key x) s)) e h

  -- A new token is stored and entered into its user's set.
  module _ (jti user : String) (ex : ℕ) (s : redis.State) (p : 0 < ex) where
    abbrev pub stored : redis.State
    stored = redis.sadd (user_tokens_key user) jti (redis.set (refresh_token_key jti) user ex s)

    pub get-stored :
        (j : String)
        → redis.get (refresh_token_key j) stored
          ≡ (if str_eq jti j then some user else redis.get (refresh_token_key j) s)
    get-stored j = simp (redis.get-sadd, redis.get-set, p, key_laws)

    smembers-stored :
        (j u : String)
        → contains j (redis.smembers (user_tokens_key u) stored) ≡ (
            if str_eq user u
            then str_eq jti j || contains j (redis.smembers (user_tokens_key user) s)
            else contains j (redis.smembers (user_tokens_key u) s))
    smembers-stored j u = simp (redis.smembers-sadd, redis.smembers-set, key_laws)

    created_always : (t : ℤ) → HasNoExpiry t → HasNoExpiry (created t)
    created_always (pos m) h = h
    created_always (negsuc m) h = tt

    ttl-stored :
        (u : String)
        → HasNoExpiry (redis.ttl (user_tokens_key u) s)
        → HasNoExpiry (redis.ttl (user_tokens_key u) stored)
    ttl-stored u h = elim (Bool-cases (str_eq user u)) [
      | inl same ↦
          let e = (str_eq_iff user u).0 same in
          subst (λ v. HasNoExpiry (redis.ttl (user_tokens_key v) stored)) e
            (rw redis.ttl-sadd_self
              (created_always _ (simp (redis.ttl-set, p, key_laws) (alive_at s u user (sym e) h))))
      | inr other ↦ simp (redis.ttl-sadd, redis.ttl-set, p, key_laws, other) h
    ]

    pub store_token : IsIndexed redis s → IsIndexed redis stored
    store_token h = record {
      listed = λ j u e. ground (
        arith,
        get-stored j,
        smembers-stored j u,
        h.listed j u,
        str_eq_iff user u,
        str_eq_iff jti j,
      );
      kept = λ u. ttl-stored u (h.kept u);
    }

  -- A token is deleted and leaves the set of a user.
  module _ (jti user : String) (s : redis.State) where
    abbrev pub dropped : redis.State
    dropped = redis.srem (user_tokens_key user) jti (redis.delete (refresh_token_key jti ∷ []) s)

    pub get-dropped :
        (j : String)
        → redis.get (refresh_token_key j) dropped
          ≡ (if str_eq jti j then none else redis.get (refresh_token_key j) s)
    get-dropped j = simp (redis.get-srem, redis.get-delete, key_laws)

    smembers-dropped :
        (j u : String)
        → contains j (redis.smembers (user_tokens_key u) dropped) ≡ (
            if str_eq user u
            then (if str_eq jti j
                then false
                else contains j (redis.smembers (user_tokens_key user) s))
            else contains j (redis.smembers (user_tokens_key u) s))
    smembers-dropped j u = simp (redis.smembers-srem, redis.smembers-delete, key_laws)

    ttl-dropped :
        (u : String)
        → HasNoExpiry (redis.ttl (user_tokens_key u) s)
        → HasNoExpiry (redis.ttl (user_tokens_key u) dropped)
    ttl-dropped u h = elim (Bool-cases (str_eq user u)) [
      | inl same ↦
          let e = (str_eq_iff user u).0 same in
          subst (λ v. HasNoExpiry (redis.ttl (user_tokens_key v) dropped)) e
            (elim (redis.ttl-srem_self (user_tokens_key user) jti
              (redis.delete (refresh_token_key jti ∷ []) s)) [
                | inl kept ↦
                    rw kept (simp (redis.ttl-delete, key_laws) (alive_at s u user (sym e) h))
                | inr gone ↦ rw gone tt
              ])
      | inr other ↦ simp (redis.ttl-srem, redis.ttl-delete, key_laws, other) h
    ]

    pub drop_token-IsIndexed : IsIndexed redis s → IsIndexed redis dropped
    drop_token-IsIndexed h = record {
      listed = λ j u e. ground (
        arith,
        get-dropped j,
        smembers-dropped j u,
        h.listed j u,
        str_eq_iff user u,
        str_eq_iff jti j,
      );
      kept = λ u. ttl-dropped u (h.kept u);
    }

  -- A token is deleted and its set is left alone.
  pub delete_token-IsIndexed :
      (jti : String) (s : redis.State)
      → IsIndexed redis s
      → IsIndexed redis (redis.delete (refresh_token_key jti ∷ []) s)
  delete_token-IsIndexed jti s h = record {
    listed = λ j u e.
        simp (redis.smembers-delete, key_laws)
          (h.listed j u (
            ground (arith, redis.get-delete (refresh_token_key jti ∷ []) (refresh_token_key j) s)));
    kept = λ u. simp (redis.ttl-delete, key_laws) (h.kept u);
  }
