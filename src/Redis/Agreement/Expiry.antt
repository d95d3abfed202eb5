-- ===== src/Redis/Agreement/Expiry.antt =====
-- The fake Redis and the server behind an EXPIRE.
use task_mgt_app.Base.{
  ℕ, ◌<◌, String, ◌≡◌, refl, true, false, ◌&&◌, Option, arith, str_eq, str_eq_iff, if◌then◌else◌,
  pos, negsuc,
}
use task_mgt_app.Base.Dict.{lookup}
use task_mgt_app.Redis.{Redis}
use task_mgt_app.Redis.Agreement.{Agrees}
use task_mgt_app.Redis.Commands.{Kind, is_members}
use task_mgt_app.Redis.Dictionaries.{store-expire, sets-expire, ttls-expire}
use task_mgt_app.Redis.Fake as Fake
use task_mgt_app.Redis.Fake.{FakeRedis, is_some, default}

module _ (redis : Redis) (kind : String → Kind) (str : ℕ → String) (int : String → Option ℕ) where
  smembers-expire :
      (k j : String) (n : ℕ) (f : FakeRedis)
      → Fake.smembers j (Fake.expire k n f).1 ≡ Fake.smembers j f
  unfolding Fake.smembers
  smembers-expire k j n f = rw sets-expire refl

  ttl-expire :
      (k j : String) (n : ℕ) (f : FakeRedis)
      → Fake.ttl j (Fake.expire k n f).1
        ≡ (if str_eq k j && is_some (lookup k f.store) then pos n else Fake.ttl j f)
  unfolding Fake.ttl
  ttl-expire k j n f = ground (arith, store-expire k n f, ttls-expire k j n f, str_eq_iff k j)

  ttl_gone :
      (k : String) (f : FakeRedis) → is_some (lookup k f.store) ≡ false → Fake.ttl k f ≡ negsuc 1
  unfolding Fake.ttl
  ttl_gone k f h = rw h refl

  ttl_there :
      (k : String) (f : FakeRedis)
      → is_some (lookup k f.store) ≡ true
      → Fake.ttl k f ≡ negsuc 1
      → false ≡ true
  unfolding Fake.ttl
  ttl_there k f h = ground arith

  times-expire :
      (k j : String) (n : ℕ) (f : FakeRedis) (s : redis.State)
      → 0 < n
      → Fake.ttl k f ≡ redis.ttl k s
      → Fake.ttl j f ≡ redis.ttl j s
      → Fake.ttl j (Fake.expire k n f).1 ≡ redis.ttl j (redis.expire k n s)
  times-expire k j n f s p hk hj = ground (
    arith,
    ttl-expire k j n f,
    ttl_gone k f,
    ttl_there k f,
    redis.ttl-expire k j n s,
    redis.ttl-expire_self k n s,
    redis.ttl-expire_gone k n s,
    str_eq_iff k j,
  )

  pub Agrees-expire :
      (k : String) (n : ℕ) (f : FakeRedis) (s : redis.State)
      → Agrees redis kind str int f s
      → is_members (kind k) ≡ false
      → 0 < n
      → Agrees redis kind str int (Fake.expire k n f).1 (redis.expire k n s)
  unfolding Fake.get
  Agrees-expire k n f s a t p = record {
    texts = λ j h. rw (store-expire k n f, redis.get-expire k j n s p) (a.texts j h);
    numbers = λ j h. rw (store-expire k n f, redis.count-expire k j n s p) (a.numbers j h);
    times = λ j h. times-expire k j n f s p (a.times k t) (a.times j h);
    sets = λ j x h. rw (smembers-expire k j n f, redis.smembers-expire k j n s p) (a.sets j x h);
    stale =
        λ j h. ground (arith, store-expire k n f, ttls-expire k j n f, a.stale j, str_eq_iff k j);
  }
