-- ===== src/Auth/Index/Revoke.antt =====
-- `_revoke_all_refresh_tokens` of app/auth/service.py and the invariant of Auth/Index.antt.
use task_mgt_app.Base.{
  String, ◌≡◌, ◌≢◌, refl, Bool, true, false, none, some, List, [], ◌∷◌, map, arith, str_eq,
  str_eq_iff, if◌then◌else◌, ℤ, negsuc,
}
use task_mgt_app.Auth.Index.{HasNoExpiry, IsIndexed}
use task_mgt_app.Auth.Keys.{
  refresh_token_key, user_tokens_key, key_laws, refresh_token_key_eq, refresh-user,
}
use task_mgt_app.Redis.{Redis, contains}

contains-map_key :
    (j : String) (jtis : List String)
    → contains (refresh_token_key j) (map refresh_token_key jtis) ≡ contains j jtis
contains-map_key j [] = refl
contains-map_key j (x ∷ xs) = rw (refresh_token_key_eq, contains-map_key j xs)

no_set-map_key :
    (u : String) (jtis : List String)
    → contains (user_tokens_key u) (map refresh_token_key jtis) ≡ false
no_set-map_key u [] = refl
no_set-map_key u (x ∷ xs) = rw (refresh-user, no_set-map_key u xs)

module _ (redis : Redis) (user : String) (s : redis.State) where
  -- The deletion of the listed tokens, which is left out where there are none.
  abbrev pub emptied : List String → redis.State
  emptied [] = s
  emptied (jti ∷ more) = redis.delete (map refresh_token_key (jti ∷ more)) s

  abbrev pub revoked : redis.State
  revoked =
      redis.delete (user_tokens_key user ∷ []) (emptied (redis.smembers (user_tokens_key user) s))

  get-emptied :
      (j : String) (jtis : List String)
      → redis.get (refresh_token_key j) (emptied jtis)
        ≡ (if contains j jtis then none else redis.get (refresh_token_key j) s)
  get-emptied j [] = refl
  get-emptied j (x ∷ xs) = rw (redis.get-delete, contains-map_key j (x ∷ xs))

  smembers-emptied :
      (u : String) (jtis : List String)
      → redis.smembers (user_tokens_key u) (emptied jtis) ≡ redis.smembers (user_tokens_key u) s
  smembers-emptied u [] = refl
  smembers-emptied u (x ∷ xs) = rw (redis.smembers-delete, no_set-map_key u (x ∷ xs))

  ttl-emptied :
      (u : String) (jtis : List String)
      → redis.ttl (user_tokens_key u) (emptied jtis) ≡ redis.ttl (user_tokens_key u) s
  ttl-emptied u [] = refl
  ttl-emptied u (x ∷ xs) = rw (redis.ttl-delete, no_set-map_key u (x ∷ xs))

  pub get-revoked :
      (j : String)
      → redis.get (refresh_token_key j) revoked ≡ (
          if contains j (redis.smembers (user_tokens_key user) s)
          then none
          else redis.get (refresh_token_key j) s)
  get-revoked j = simp (redis.get-delete, get-emptied, key_laws)

  smembers-revoked :
      (u : String)
      → redis.smembers (user_tokens_key u) revoked
        ≡ (if str_eq user u then [] else redis.smembers (user_tokens_key u) s)
  smembers-revoked u = simp (redis.smembers-delete, smembers-emptied, key_laws)

  ttl-revoked :
      (u : String)
      → redis.ttl (user_tokens_key u) revoked
        ≡ (if str_eq user u then negsuc 1 else redis.ttl (user_tokens_key u) s)
  ttl-revoked u = simp (redis.ttl-delete, ttl-emptied, key_laws)

  no_expiry : (b : Bool) (t : ℤ) → HasNoExpiry t → HasNoExpiry (if b then negsuc 1 else t)
  no_expiry true t h = tt
  no_expiry false t h = h

  pub revoked-IsIndexed : IsIndexed redis s → IsIndexed redis revoked
  revoked-IsIndexed h = record {
    listed =
        λ j u e. ground (arith, get-revoked j, smembers-revoked u, h.listed j u, str_eq_iff user u);
    kept = λ u. rw ttl-revoked (no_expiry _ _ (h.kept u));
  }

  -- No token of the user is left.
  pub revoked_all :
      IsIndexed redis s → (j : String) → redis.get (refresh_token_key j) revoked ≢ some user
  revoked_all h j e = ground (arith, get-revoked j, h.listed j user)

  other-map_key :
      (k : String) (jtis : List String)
      → ((j : String) → str_eq (refresh_token_key j) k ≡ false)
      → contains k (map refresh_token_key jtis) ≡ false
  other-map_key k [] o = refl
  other-map_key k (x ∷ xs) o = rw (o x) (other-map_key k xs o)

  -- A key that is neither a token's nor a set's is left alone.
  module _ (k : String) (no_token : (j : String) → str_eq (refresh_token_key j) k ≡ false)
      (no_set : (u : String) → str_eq (user_tokens_key u) k ≡ false) where
    get-emptied_other : (jtis : List String) → redis.get k (emptied jtis) ≡ redis.get k s
    get-emptied_other [] = refl
    get-emptied_other (x ∷ xs) = rw (redis.get-delete, other-map_key k (x ∷ xs) no_token)

    ttl-emptied_other : (jtis : List String) → redis.ttl k (emptied jtis) ≡ redis.ttl k s
    ttl-emptied_other [] = refl
    ttl-emptied_other (x ∷ xs) = rw (redis.ttl-delete, other-map_key k (x ∷ xs) no_token)

    pub get-revoked_other : redis.get k revoked ≡ redis.get k s
    get-revoked_other = simp (redis.get-delete, get-emptied_other, no_set, key_laws)

    pub ttl-revoked_other : redis.ttl k revoked ≡ redis.ttl k s
    ttl-revoked_other = simp (redis.ttl-delete, ttl-emptied_other, no_set, key_laws)
