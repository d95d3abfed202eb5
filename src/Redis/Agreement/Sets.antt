-- ===== src/Redis/Agreement/Sets.antt =====
-- The fake Redis and the server behind a SADD and a SREM.
use task_mgt_app.Base.{ℕ, String, ◌≡◌, true, not, Option, [], ◌∷◌, arith}
use task_mgt_app.Base.Dict.{lookup}
use task_mgt_app.Redis.{Redis}
use task_mgt_app.Redis.Agreement.{Agrees, apart, members_text, members_number, both, negated}
use task_mgt_app.Redis.Commands.{Kind, is_text, is_number, is_members}
use task_mgt_app.Redis.Dictionaries.{smembers-sadd, smembers-srem, store-srem}
use task_mgt_app.Redis.Fake as Fake
use task_mgt_app.Redis.Fake.{FakeRedis, is_some, default}

module _ (redis : Redis) (kind : String → Kind) (str : ℕ → String) (int : String → Option ℕ) where
  pub Agrees-sadd :
      (k m : String) (f : FakeRedis) (s : redis.State)
      → Agrees redis kind str int f s
      → is_members (kind k) ≡ true
      → Agrees redis kind str int (Fake.sadd k (m ∷ []) f).1 (redis.sadd k m s)
  unfolding Fake.get Fake.ttl Fake.sadd
  Agrees-sadd k m f s a t = record {
    texts = λ j h.
        let d = apart kind is_members is_text k j members_text t h in
        rw (redis.get-sadd k j m s d) (a.texts j h);
    numbers = λ j h.
        let d = apart kind is_members is_number k j members_number t h in
        rw (redis.count-sadd k j m s d) (a.numbers j h);
    times = λ j h.
        let d = apart kind is_members (λ x. not (is_members x)) k j both t (negated h) in
        rw (redis.ttl-sadd k j m s d) (a.times j h);
    sets = λ j x h.
        ground
          (arith, smembers-sadd k j m x f, redis.smembers-sadd k j m x s, a.sets k x, a.sets j x);
    stale = a.stale;
  }

  pub Agrees-srem :
      (k m : String) (f : FakeRedis) (s : redis.State)
      → Agrees redis kind str int f s
      → is_members (kind k) ≡ true
      → Agrees redis kind str int (Fake.srem k (m ∷ []) f).1 (redis.srem k m s)
  unfolding Fake.get Fake.ttl Fake.srem
  Agrees-srem k m f s a t =
      let same = store-srem k m (lookup k f.sets) f in
      record {
        texts = λ j h.
            let d = apart kind is_members is_text k j members_text t h in
            rw (same.0, redis.get-srem k j m s d) (a.texts j h);
        numbers = λ j h.
            let d = apart kind is_members is_number k j members_number t h in
            rw (same.0, redis.count-srem k j m s d) (a.numbers j h);
        times = λ j h.
            let d = apart kind is_members (λ x. not (is_members x)) k j both t (negated h) in
            rw (same.0, same.1, redis.ttl-srem k j m s d) (a.times j h);
        sets = λ j x h.
            ground (
              arith,
              smembers-srem k j m x f,
              redis.smembers-srem k j m x s,
              a.sets k x,
              a.sets j x,
            );
        stale = λ j h. ground (arith, same.0, same.1, a.stale j);
      }
