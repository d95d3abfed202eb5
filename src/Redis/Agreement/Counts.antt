-- ===== src/Redis/Agreement/Counts.antt =====
-- The fake Redis and the server behind an INCR.
use task_mgt_app.Base.{
  ℕ, ◌+◌, String, ◌≡◌, refl, true, Option, none, some, arith, str_eq, str_eq_iff, if◌then◌else◌,
}
use task_mgt_app.Base.Dict.{lookup, insert, lookup-insert}
use task_mgt_app.Redis.{Redis, created}
use task_mgt_app.Redis.Agreement.{Agrees, apart, number_members, number_text}
use task_mgt_app.Redis.Commands.{Kind, is_text, is_number, is_members}
use task_mgt_app.Redis.Fake as Fake
use task_mgt_app.Redis.Fake.{FakeRedis, is_some, default}

module _ (redis : Redis) (kind : String → Kind) (str : ℕ → String) (int : String → Option ℕ) where
  -- The fake behind an INCR of a number.
  abbrev pub raised : String → ℕ → FakeRedis → FakeRedis
  raised k n f = record f { store = insert k (str (n + 1)) f.store }

  pub incr_lem :
      (k : String) (n : ℕ) (f : FakeRedis)
      → int (default "0" (lookup k f.store)) ≡ some n
      → Fake.incr str int k f ≡ some (n + 1, raised k n f)
  unfolding Fake.incr
  incr_lem k n f h = rw h refl

  ttl-raised :
      (k j : String) (n : ℕ) (f : FakeRedis)
      → (lookup k f.store ≡ none → lookup k f.ttls ≡ none)
      → Fake.ttl j (raised k n f) ≡ (if str_eq k j then created (Fake.ttl k f) else Fake.ttl j f)
  unfolding Fake.ttl
  ttl-raised k j n f h = ground (arith, lookup-insert k j (str (n + 1)) f.store, str_eq_iff k j)

  pub Agrees-incr :
      (k : String) (f : FakeRedis) (s : redis.State)
      → Agrees redis kind str int f s
      → is_number (kind k) ≡ true
      → ((n : ℕ) → int (str n) ≡ some n)
      → Agrees redis kind str int (raised k (redis.count k s) f) (redis.incr k s).1
  unfolding Fake.get Fake.smembers
  Agrees-incr k f s a t int-str =
      let n = redis.count k s in
      record {
        texts = λ j h.
            let d = apart kind is_number is_text k j number_text t h in
            ground
              (arith, lookup-insert k j (str (n + 1)) f.store, redis.get-incr k j s, a.texts j, d);
        numbers = λ j h. ground (
          arith,
          lookup-insert k j (str (n + 1)) f.store,
          redis.count-incr k j s,
          a.numbers j,
          int-str (n + 1),
        );
        times = λ j h. ground (
          arith,
          ttl-raised k j n f (a.stale k),
          a.times k,
          a.times j,
          redis.ttl-incr k j s,
          redis.ttl-incr_self k s,
          str_eq_iff k j,
        );
        sets = λ j x h.
            let d = apart kind is_number is_members k j number_members t h in
            rw (redis.smembers-incr k j s d) (a.sets j x h);
        stale = λ j h.
            ground (arith, lookup-insert k j (str (n + 1)) f.store, a.stale j, str_eq_iff k j);
      }
