-- ===== src/Tests/MemoryRedis/Laws.antt =====
-- The Redis in memory keeps what Redis promises.
use task_mgt_app.Base.{
  ℕ, ◌+◌, ◌<◌, String, ◌≡◌, ◌≢◌, ◌⊎◌, refl, inl, false, ◌||◌, none, some, List, [], arith, str_eq,
  str_eq_iff, str_eq_refl, if◌then◌else◌, pos, negsuc,
}
use task_mgt_app.Redis.{contains, survives, age, created}
use task_mgt_app.Tests.MemoryRedis.Operations.{
  Memory, look, members_of, contains-without, get, count, smembers, set, delete, incr, expire, sadd,
  srem, elapse, ttl,
}

pub get-set :
    (k j v : String) (ex : ℕ) (s : Memory)
    → 0 < ex
    → get j (set k v ex s) ≡ (if str_eq k j then some v else get j s)
get-set k j v ex s h0 = ground arith

pub ttl-set :
    (k j v : String) (ex : ℕ) (s : Memory)
    → 0 < ex
    → ttl j (set k v ex s) ≡ (if str_eq k j then pos ex else ttl j s)
ttl-set k j v ex s h0 = ground arith

pub count-set :
    (k j v : String) (ex : ℕ) (s : Memory) → str_eq k j ≡ false → count j (set k v ex s) ≡ count j s
count-set k j v ex s h0 = ground arith

pub smembers-set :
    (k j v : String) (ex : ℕ) (s : Memory)
    → str_eq k j ≡ false
    → smembers j (set k v ex s) ≡ smembers j s
smembers-set k j v ex s h0 = ground arith

pub get-delete :
    (ks : List String) (j : String) (s : Memory)
    → get j (delete ks s) ≡ (if contains j ks then none else get j s)
get-delete ks j s = ground arith

pub ttl-delete :
    (ks : List String) (j : String) (s : Memory)
    → ttl j (delete ks s) ≡ (if contains j ks then negsuc 1 else ttl j s)
ttl-delete ks j s = ground arith

pub count-delete :
    (ks : List String) (j : String) (s : Memory)
    → count j (delete ks s) ≡ (if contains j ks then 0 else count j s)
count-delete ks j s = ground arith

pub smembers-delete :
    (ks : List String) (j : String) (s : Memory)
    → smembers j (delete ks s) ≡ (if contains j ks then [] else smembers j s)
smembers-delete ks j s = ground arith

pub incr_count : (k : String) (s : Memory) → (incr k s).0 ≡ count k s + 1
incr_count k s = refl

pub count-incr :
    (k j : String) (s : Memory)
    → count j (incr k s).1 ≡ (if str_eq k j then count k s + 1 else count j s)
count-incr k j s = ground arith

pub get-incr : (k j : String) (s : Memory) → str_eq k j ≡ false → get j (incr k s).1 ≡ get j s
get-incr k j s h0 = ground arith

pub ttl-incr : (k j : String) (s : Memory) → str_eq k j ≡ false → ttl j (incr k s).1 ≡ ttl j s
ttl-incr k j s h0 = ground arith

pub ttl-incr_self : (k : String) (s : Memory) → ttl k (incr k s).1 ≡ created (ttl k s)
ttl-incr_self k s = ground (arith, str_eq_refl k)

pub smembers-incr :
    (k j : String) (s : Memory) → str_eq k j ≡ false → smembers j (incr k s).1 ≡ smembers j s
smembers-incr k j s h0 = ground arith

pub get-expire : (k j : String) (n : ℕ) (s : Memory) → 0 < n → get j (expire k n s) ≡ get j s
get-expire k j n s h0 = ground (arith, str_eq_iff k j)

pub count-expire : (k j : String) (n : ℕ) (s : Memory) → 0 < n → count j (expire k n s) ≡ count j s
count-expire k j n s h0 = ground (arith, str_eq_iff k j)

pub smembers-expire :
    (k j : String) (n : ℕ) (s : Memory) → 0 < n → smembers j (expire k n s) ≡ smembers j s
smembers-expire k j n s h0 = ground (arith, str_eq_iff k j)

pub ttl-expire :
    (k j : String) (n : ℕ) (s : Memory) → str_eq k j ≡ false → ttl j (expire k n s) ≡ ttl j s
ttl-expire k j n s h0 = ground arith

pub ttl-expire_self :
    (k : String) (n : ℕ) (s : Memory) → 0 < n → ttl k s ≢ negsuc 1 → ttl k (expire k n s) ≡ pos n
ttl-expire_self k n s h0 h1 = ground (arith, str_eq_refl k)

pub ttl-expire_gone :
    (k : String) (n : ℕ) (s : Memory) → ttl k s ≡ negsuc 1 → ttl k (expire k n s) ≡ negsuc 1
ttl-expire_gone k n s h = ground (arith, str_eq_refl k)

pub smembers-sadd :
    (k j m x : String) (s : Memory)
    → contains x (smembers j (sadd k m s))
      ≡ (if str_eq k j then str_eq m x || contains x (smembers k s) else contains x (smembers j s))
smembers-sadd k j m x s = ground (arith, str_eq_iff k j)

pub get-sadd : (k j m : String) (s : Memory) → str_eq k j ≡ false → get j (sadd k m s) ≡ get j s
get-sadd k j m s h0 = ground arith

pub ttl-sadd : (k j m : String) (s : Memory) → str_eq k j ≡ false → ttl j (sadd k m s) ≡ ttl j s
ttl-sadd k j m s h0 = ground arith

pub ttl-sadd_self : (k m : String) (s : Memory) → ttl k (sadd k m s) ≡ created (ttl k s)
ttl-sadd_self k m s = ground (arith, str_eq_refl k)

pub count-sadd :
    (k j m : String) (s : Memory) → str_eq k j ≡ false → count j (sadd k m s) ≡ count j s
count-sadd k j m s h0 = ground arith

pub smembers-srem :
    (k j m x : String) (s : Memory)
    → contains x (smembers j (srem k m s)) ≡ (
        if str_eq k j
        then (if str_eq m x then false else contains x (smembers k s))
        else contains x (smembers j s))
smembers-srem k j m x s =
    ground (arith, str_eq_iff k j, contains-without m x (members_of (look k s)))

pub get-srem : (k j m : String) (s : Memory) → str_eq k j ≡ false → get j (srem k m s) ≡ get j s
get-srem k j m s h0 = ground arith

pub ttl-srem : (k j m : String) (s : Memory) → str_eq k j ≡ false → ttl j (srem k m s) ≡ ttl j s
ttl-srem k j m s h0 = ground arith

pub ttl-srem_self :
    (k m : String) (s : Memory) → (ttl k (srem k m s) ≡ ttl k s) ⊎ (ttl k (srem k m s) ≡ negsuc 1)
ttl-srem_self k m s = inl (ground (arith, str_eq_refl k))

pub count-srem :
    (k j m : String) (s : Memory) → str_eq k j ≡ false → count j (srem k m s) ≡ count j s
count-srem k j m s h0 = ground arith

pub get-elapse :
    (n : ℕ) (j : String) (s : Memory)
    → get j (elapse n s) ≡ (if survives n (ttl j s) then get j s else none)
get-elapse n j s = ground arith

pub ttl-elapse : (n : ℕ) (j : String) (s : Memory) → ttl j (elapse n s) ≡ age n (ttl j s)
ttl-elapse n j s = ground arith

pub count-elapse :
    (n : ℕ) (j : String) (s : Memory)
    → count j (elapse n s) ≡ (if survives n (ttl j s) then count j s else 0)
count-elapse n j s = ground arith

pub smembers-elapse :
    (n : ℕ) (j : String) (s : Memory)
    → smembers j (elapse n s) ≡ (if survives n (ttl j s) then smembers j s else [])
smembers-elapse n j s = ground arith
