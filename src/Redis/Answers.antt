-- ===== src/Redis/Answers.antt =====
-- What AuthService sees of `FakeRedis` (tests/unit/fakes.py) and of Redis.
use task_mgt_app.Base.{
  ℕ, String, ◌≡◌, refl, sym, ap, Bool, true, false, ◌&&◌, not, Option, none, some, List, [], ◌∷◌,
  arith, ltb, negsuc,
}
use mathlib.Core.Path.{fun_ext}
use task_mgt_app.Redis.{Redis}
use task_mgt_app.Redis.Agreement.{Agrees, Agrees-set, Agrees-delete}
use task_mgt_app.Redis.Agreement.Counts.{Agrees-incr, incr_lem}
use task_mgt_app.Redis.Agreement.Expiry.{Agrees-expire}
use task_mgt_app.Redis.Agreement.Sets.{Agrees-sadd, Agrees-srem}
use task_mgt_app.Redis.Commands.{
  Command, get, ttl, set, delete, incr, expire, sadd, srem, smembers, text, seconds, members,
  number, Kind, is_text, is_members, fits, serve, fake, answers, every,
}
use task_mgt_app.Redis.Dictionaries.{sets-delete}
use task_mgt_app.Redis.Fake as Fake
use task_mgt_app.Redis.Fake.{FakeRedis, fresh, default}

and_left : (a b : Bool) → (a && b) ≡ true → a ≡ true
and_left a b h = ground arith

and_right : (a b : Bool) → (a && b) ≡ true → b ≡ true
and_right a b h = ground arith

false_of_not : {b : Bool} → not b ≡ true → b ≡ false
false_of_not h = ground arith

module _ (redis : Redis) (kind : String → Kind) (str : ℕ → String) (int : String → Option ℕ) where
  abbrev Same : Command → FakeRedis → redis.State → Type 0
  Same c f s =
      ((fake str int c f).0 ≡ (serve redis c s).0)
      × Agrees redis kind str int (fake str int c f).1 (serve redis c s).1

  command_alike :
      (c : Command) (f : FakeRedis) (s : redis.State)
      → Agrees redis kind str int f s
      → fits kind c ≡ true
      → ((n : ℕ) → int (str n) ≡ some n)
      → int "0" ≡ some 0
      → Same c f s
  unfolding fits serve fake
  command_alike (get k) f s a t h z = (ap text (a.texts k t), a)
  command_alike (ttl k) f s a t h z = (ap seconds (a.times k (false_of_not t)), a)
  command_alike (set k v ex) f s a t h z = (
    refl,
    Agrees-set redis kind str int k v ex f s a (and_left _ _ t)
        (ground (arith, and_right (is_text (kind k)) (ltb 0 ex) t)),
  )
  command_alike (delete ks) f s a t h z = (refl, Agrees-delete redis kind str int ks f s a t z)
  command_alike (incr k) f s a t h z =
      rw (incr_lem redis kind str int k (redis.count k s) f (a.numbers k t))
        (ap number (sym (redis.incr_count k s)), Agrees-incr redis kind str int k f s a t h)
  command_alike (expire k n) f s a t h z = (
    refl,
    Agrees-expire redis kind str int k n f s a (false_of_not (and_left _ _ t))
        (ground (arith, and_right (not (is_members (kind k))) (ltb 0 n) t)),
  )
  command_alike (sadd k m) f s a t h z = (refl, Agrees-sadd redis kind str int k m f s a t)
  command_alike (srem k m) f s a t h z = (refl, Agrees-srem redis kind str int k m f s a t)
  command_alike (smembers k) f s a t h z = (ap members (fun_ext (λ x. a.sets k x t)), a)

  answers_agree :
      (cs : List Command) (f : FakeRedis) (s : redis.State)
      → Agrees redis kind str int f s
      → every (fits kind) cs ≡ true
      → ((n : ℕ) → int (str n) ≡ some n)
      → int "0" ≡ some 0
      → answers (fake str int) cs f ≡ answers (serve redis) cs s
  answers_agree [] f s a t h z = refl
  answers_agree (c ∷ cs) f s a t h z =
      let (same, kept) = command_alike c f s a (and_left _ _ t) h z in
      let rest = answers_agree cs _ _ kept (and_right _ _ t) h z in rw (same, rest) refl

  -- A Redis without keys.
  abbrev pub IsEmpty : redis.State → Type 0
  IsEmpty s =
      (k : String)
      → (redis.get k s ≡ none)
        × (redis.ttl k s ≡ negsuc 1)
        × (redis.count k s ≡ 0)
        × (redis.smembers k s ≡ [])

  Agrees-fresh :
      (s : redis.State) → IsEmpty s → int "0" ≡ some 0 → Agrees redis kind str int fresh s
  unfolding Fake.get Fake.ttl Fake.smembers
  Agrees-fresh s e z = record {
    texts = λ k h. rw (e k).0 refl;
    numbers = λ k h. rw (e k).2 z;
    times = λ k h. rw (e k).1 refl;
    sets = λ k x h. rw (e k).3 refl;
    stale = λ k h. refl;
  }

  -- A fresh `FakeRedis` and a Redis without keys give the same answers to any sequence of the
  -- commands of AuthService at one instant - the same texts, times to live, counts and sets, these
  -- up to their order -, if every key is used for one kind of value, no expiry is 0 and no key of a
  -- set is deleted. A deletion leaves all sets of the fake as they are, whatever keys it names. The
  -- conditions on Python's `str` and `int` are that `int` reads what `str` writes, and "0" as 0.
  pub fresh_alike :
      (s : redis.State)
      → IsEmpty s
      → ((n : ℕ) → int (str n) ≡ some n)
      → int "0" ≡ some 0
      → (cs : List Command) → every (fits kind) cs ≡ true
      → (keys : List String) (f : FakeRedis)
      → (answers (fake str int) cs fresh ≡ answers (serve redis) cs s)
        × ((Fake.delete keys f).1.sets ≡ f.sets)
  fresh_alike s e h z cs t keys f =
      (answers_agree cs fresh s (Agrees-fresh s e z) t h z, sets-delete keys f)
