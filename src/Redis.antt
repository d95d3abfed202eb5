-- ===== src/Redis.antt =====
-- The Redis server that the application is a client of (app/core/redis.py): its commands as
-- operations on a state that is not given, with the laws that the documentation promises.
-- Time passes by `elapse`, in whole seconds.
use task_mgt_app.Base.{
  ℕ, ◌+◌, ◌-◌, ◌<◌, String, ◌≡◌, ◌≢◌, ◌⊎◌, Bool, true, false, ◌||◌, Option, none, List, [], arith,
  ltb, str_eq, any, if◌then◌else◌, ℤ, pos, negsuc,
}
pub mod Fake
pub mod Commands
mod Dictionaries
mod Agreement
pub mod Answers

abbrev pub contains : String → List String → Bool
contains x = any (λ k. str_eq k x)

-- Whether a key with this TTL is still there after `n` seconds; -1 is "no expiry".
abbrev pub survives : ℕ → ℤ → Bool
survives n (pos m) = ltb n m
survives n (negsuc _) = true

abbrev pub age : ℕ → ℤ → ℤ
age n (pos m) = if ltb n m then pos (m - n) else negsuc 1
age n (negsuc m) = negsuc m

-- The TTL of a key that a write which keeps expiries has met.
abbrev pub created : ℤ → ℤ
created (pos m) = pos m
created (negsuc _) = negsuc 0

pub created_ne : (t : ℤ) → created t ≢ negsuc 1
created_ne (pos n) e = ground arith
created_ne (negsuc n) e = ground arith

-- `count` is the integer that INCR finds at a key, 0 where there is none. A law about a command on
-- one key and a look at another has the premise that the keys differ where a key of another type
-- would be an error.
pub record Redis : Type 1 where
  pub State : Type 0
  pub get : String → State → Option String
  pub ttl : String → State → ℤ
  pub count : String → State → ℕ
  pub smembers : String → State → List String
  -- SET key value EX seconds
  pub set : String → String → ℕ → State → State
  pub delete : List String → State → State
  pub incr : String → State → ℕ × State
  pub expire : String → ℕ → State → State
  pub sadd : String → String → State → State
  pub srem : String → String → State → State
  pub elapse : ℕ → State → State
  pub get-set :
      (k j v : String) (ex : ℕ) (s : State)
      → 0 < ex
      → get j (set k v ex s) ≡ (if str_eq k j then Option.some v else get j s)
  pub ttl-set :
      (k j v : String) (ex : ℕ) (s : State)
      → 0 < ex
      → ttl j (set k v ex s) ≡ (if str_eq k j then pos ex else ttl j s)
  pub count-set :
      (k j v : String) (ex : ℕ) (s : State)
      → str_eq k j ≡ false
      → count j (set k v ex s) ≡ count j s
  pub smembers-set :
      (k j v : String) (ex : ℕ) (s : State)
      → str_eq k j ≡ false
      → smembers j (set k v ex s) ≡ smembers j s
  pub get-delete :
      (ks : List String) (j : String) (s : State)
      → get j (delete ks s) ≡ (if contains j ks then none else get j s)
  pub ttl-delete :
      (ks : List String) (j : String) (s : State)
      → ttl j (delete ks s) ≡ (if contains j ks then negsuc 1 else ttl j s)
  pub count-delete :
      (ks : List String) (j : String) (s : State)
      → count j (delete ks s) ≡ (if contains j ks then 0 else count j s)
  pub smembers-delete :
      (ks : List String) (j : String) (s : State)
      → smembers j (delete ks s) ≡ (if contains j ks then [] else smembers j s)
  pub incr_count : (k : String) (s : State) → (incr k s).0 ≡ count k s + 1
  pub count-incr :
      (k j : String) (s : State)
      → count j (incr k s).1 ≡ (if str_eq k j then count k s + 1 else count j s)
  pub get-incr : (k j : String) (s : State) → str_eq k j ≡ false → get j (incr k s).1 ≡ get j s
  pub ttl-incr : (k j : String) (s : State) → str_eq k j ≡ false → ttl j (incr k s).1 ≡ ttl j s
  -- the expiry stays
  pub ttl-incr_self : (k : String) (s : State) → ttl k (incr k s).1 ≡ created (ttl k s)
  pub smembers-incr :
      (k j : String) (s : State) → str_eq k j ≡ false → smembers j (incr k s).1 ≡ smembers j s
  pub get-expire : (k j : String) (n : ℕ) (s : State) → 0 < n → get j (expire k n s) ≡ get j s
  pub count-expire : (k j : String) (n : ℕ) (s : State) → 0 < n → count j (expire k n s) ≡ count j s
  pub smembers-expire :
      (k j : String) (n : ℕ) (s : State) → 0 < n → smembers j (expire k n s) ≡ smembers j s
  pub ttl-expire :
      (k j : String) (n : ℕ) (s : State) → str_eq k j ≡ false → ttl j (expire k n s) ≡ ttl j s
  pub ttl-expire_self :
      (k : String) (n : ℕ) (s : State) → 0 < n → ttl k s ≢ negsuc 1 → ttl k (expire k n s) ≡ pos n
  pub ttl-expire_gone :
      (k : String) (n : ℕ) (s : State) → ttl k s ≡ negsuc 1 → ttl k (expire k n s) ≡ negsuc 1
  pub smembers-sadd :
      (k j m x : String) (s : State)
      → contains x (smembers j (sadd k m s)) ≡ (
          if str_eq k j then str_eq m x || contains x (smembers k s) else contains x (smembers j s))
  pub get-sadd : (k j m : String) (s : State) → str_eq k j ≡ false → get j (sadd k m s) ≡ get j s
  pub ttl-sadd : (k j m : String) (s : State) → str_eq k j ≡ false → ttl j (sadd k m s) ≡ ttl j s
  pub ttl-sadd_self : (k m : String) (s : State) → ttl k (sadd k m s) ≡ created (ttl k s)
  pub count-sadd :
      (k j m : String) (s : State) → str_eq k j ≡ false → count j (sadd k m s) ≡ count j s
  pub smembers-srem :
      (k j m x : String) (s : State)
      → contains x (smembers j (srem k m s)) ≡ (
          if str_eq k j
          then (if str_eq m x then false else contains x (smembers k s))
          else contains x (smembers j s))
  pub get-srem : (k j m : String) (s : State) → str_eq k j ≡ false → get j (srem k m s) ≡ get j s
  pub ttl-srem : (k j m : String) (s : State) → str_eq k j ≡ false → ttl j (srem k m s) ≡ ttl j s
  -- the removal of the last member removes the key
  pub ttl-srem_self :
      (k m : String) (s : State) → (ttl k (srem k m s) ≡ ttl k s) ⊎ (ttl k (srem k m s) ≡ negsuc 1)
  pub count-srem :
      (k j m : String) (s : State) → str_eq k j ≡ false → count j (srem k m s) ≡ count j s
  pub get-elapse :
      (n : ℕ) (j : String) (s : State)
      → get j (elapse n s) ≡ (if survives n (ttl j s) then get j s else none)
  pub ttl-elapse : (n : ℕ) (j : String) (s : State) → ttl j (elapse n s) ≡ age n (ttl j s)
  pub count-elapse :
      (n : ℕ) (j : String) (s : State)
      → count j (elapse n s) ≡ (if survives n (ttl j s) then count j s else 0)
  pub smembers-elapse :
      (n : ℕ) (j : String) (s : State)
      → smembers j (elapse n s) ≡ (if survives n (ttl j s) then smembers j s else [])
