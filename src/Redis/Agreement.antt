-- ===== src/Redis/Agreement.antt =====
-- `FakeRedis` of tests/unit/fakes.py against the server of Redis, at one instant: when the two agree,
-- and that every command keeps it.
pub mod Expiry
pub mod Counts
pub mod Sets
use task_mgt_app.Base.{
  ℕ, ◌+◌, ◌<◌, String, ◌≡◌, refl, Bool, true, false, not, ◌&&◌, Option, none, some, List, [], ◌∷◌,
  arith, str_eq, str_eq_iff, if◌then◌else◌, pos, negsuc,
}
use task_mgt_app.Base.Dict.{lookup, insert, lookup-insert}
use task_mgt_app.Redis.{Redis, contains, created}
use task_mgt_app.Redis.Commands.{
  Kind, is_text, is_number, is_members, for_text, for_number, for_members, every,
}
use task_mgt_app.Redis.Dictionaries.{
  store-set, ttls-set, store-delete, ttls-delete, sets-delete, store-expire, sets-expire,
  ttls-expire, smembers-sadd, smembers-srem, store-srem,
}
use task_mgt_app.Redis.Fake as Fake
use task_mgt_app.Redis.Fake.{FakeRedis, is_some, default}

-- Keys of two kinds are two keys.
pub apart :
    (kind : String → Kind) (p q : Kind → Bool) (k j : String)
    → ((x : Kind) → p x ≡ true → q x ≡ true → false ≡ true)
    → p (kind k) ≡ true
    → q (kind j) ≡ true
    → str_eq k j ≡ false
apart kind p q k j clash h h' = ground (arith, str_eq_iff k j, clash (kind k))

pub text_number : (x : Kind) → is_text x ≡ true → is_number x ≡ true → false ≡ true
text_number for_text h h' = h'
text_number for_number h h' = h
text_number for_members h h' = h

pub number_members : (x : Kind) → is_number x ≡ true → is_members x ≡ true → false ≡ true
number_members for_text h h' = h
number_members for_number h h' = h'
number_members for_members h h' = h

pub text_members : (x : Kind) → is_text x ≡ true → is_members x ≡ true → false ≡ true
text_members for_text h h' = h'
text_members for_number h h' = h
text_members for_members h h' = h

pub number_text : (x : Kind) → is_number x ≡ true → is_text x ≡ true → false ≡ true
number_text x h h' = text_number x h' h

pub members_text : (x : Kind) → is_members x ≡ true → is_text x ≡ true → false ≡ true
members_text x h h' = text_members x h' h

pub members_number : (x : Kind) → is_members x ≡ true → is_number x ≡ true → false ≡ true
members_number x h h' = number_members x h' h

pub both : (x : Kind) → is_members x ≡ true → not (is_members x) ≡ true → false ≡ true
both x h h' = ground arith

pub negated : {b : Bool} → b ≡ false → not b ≡ true
negated h = rw h refl

module _ (redis : Redis) (kind : String → Kind) (str : ℕ → String) (int : String → Option ℕ) where
  pub record Agrees (f : FakeRedis) (s : redis.State) : Type 0 where
    pub texts : (k : String) → is_text (kind k) ≡ true → Fake.get k f ≡ redis.get k s
    pub numbers :
        (k : String)
        → is_number (kind k) ≡ true
        → int (default "0" (lookup k f.store)) ≡ some (redis.count k s)
    pub times : (k : String) → is_members (kind k) ≡ false → Fake.ttl k f ≡ redis.ttl k s
    pub sets :
        (k x : String)
        → is_members (kind k) ≡ true
        → contains x (Fake.smembers k f) ≡ contains x (redis.smembers k s)
    pub stale : (k : String) → lookup k f.store ≡ none → lookup k f.ttls ≡ none

  pub Agrees-set :
      (k v : String) (ex : ℕ) (f : FakeRedis) (s : redis.State)
      → Agrees f s
      → is_text (kind k) ≡ true
      → 0 < ex
      → Agrees (Fake.set k v (some ex) f).1 (redis.set k v ex s)
  unfolding Fake.get Fake.ttl Fake.smembers Fake.set
  Agrees-set k v ex f s a t p = record {
    texts = λ j h. ground (arith, store-set k j v ex f, redis.get-set k j v ex s, a.texts j);
    numbers = λ j h.
        let d = apart kind is_text is_number k j text_number t h in
        ground (arith, store-set k j v ex f, redis.count-set k j v ex s, a.numbers j, d);
    times = λ j h.
        ground
          (arith, store-set k j v ex f, ttls-set k j v ex f, redis.ttl-set k j v ex s, a.times j);
    sets = λ j x h.
        let d = apart kind is_text is_members k j text_members t h in
        rw (redis.smembers-set k j v ex s d) (a.sets j x h);
    stale = λ j h. ground (arith, store-set k j v ex f, ttls-set k j v ex f, a.stale j);
  }

  deletes_no_set :
      (ks : List String) (j : String)
      → every (λ key. not (is_members (kind key))) ks ≡ true
      → is_members (kind j) ≡ true
      → contains j ks ≡ false
  deletes_no_set [] j h h' = refl
  deletes_no_set (k ∷ ks) j h h' = ground (arith, deletes_no_set ks j, str_eq_iff k j)

  smembers-delete :
      (ks : List String) (j : String) (f : FakeRedis)
      → Fake.smembers j (Fake.delete ks f).1 ≡ Fake.smembers j f
  unfolding Fake.smembers
  smembers-delete ks j f = rw sets-delete refl

  pub Agrees-delete :
      (ks : List String) (f : FakeRedis) (s : redis.State)
      → Agrees f s
      → every (λ key. not (is_members (kind key))) ks ≡ true
      → int "0" ≡ some 0
      → Agrees (Fake.delete ks f).1 (redis.delete ks s)
  unfolding Fake.get Fake.ttl
  Agrees-delete ks f s a t z = record {
    texts = λ j h. ground (arith, store-delete ks j f, redis.get-delete ks j s, a.texts j);
    numbers = λ j h. ground (arith, store-delete ks j f, redis.count-delete ks j s, a.numbers j);
    times = λ j h.
        ground (arith, store-delete ks j f, ttls-delete ks j f, redis.ttl-delete ks j s, a.times j);
    sets = λ j x h.
        rw (smembers-delete ks j f, redis.smembers-delete ks j s, deletes_no_set ks j t h)
          (a.sets j x h);
    stale = λ j h. ground (arith, store-delete ks j f, ttls-delete ks j f, a.stale j);
  }
