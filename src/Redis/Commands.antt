-- ===== src/Redis/Commands.antt =====
-- The commands that AuthService gives to its Redis client, given to a server and to the fake of the
-- unit tests (app/auth/service.py, tests/unit/fakes.py).
use task_mgt_app.Base.{
  ℕ, String, Bool, true, false, ◌&&◌, not, Option, none, some, List, [], ◌∷◌, ltb, ℤ,
}
use task_mgt_app.Redis.{Redis, contains}
use task_mgt_app.Redis.Fake.{FakeRedis}
use task_mgt_app.Redis.Fake as Fake

pub data Command : Type 0 where
  get : (key : String) → Command
  ttl : (key : String) → Command
  set : (key value : String) (ex : ℕ) → Command
  delete : (keys : List String) → Command
  incr : (key : String) → Command
  expire : (key : String) (seconds : ℕ) → Command
  sadd : (key member : String) → Command
  srem : (key member : String) → Command
  smembers : (key : String) → Command

-- What the caller looks at of an answer. A set is its membership test.
pub data Answer : Type 0 where
  text : Option String → Answer
  seconds : ℤ → Answer
  number : ℕ → Answer
  members : (String → Bool) → Answer
  done failed : Answer

-- What a key is used for.
pub data Kind : Type 0 where
  for_text for_number for_members : Kind

abbrev pub is_text : Kind → Bool
is_text for_text = true
is_text for_number = false
is_text for_members = false

abbrev pub is_number : Kind → Bool
is_number for_text = false
is_number for_number = true
is_number for_members = false

abbrev pub is_members : Kind → Bool
is_members for_text = false
is_members for_number = false
is_members for_members = true

abbrev pub every : {A : Type 0} → (A → Bool) → List A → Bool
every p [] = true
every p (a ∷ l) = p a && every p l

-- A command uses its keys for what they are for, sets no expiry of 0, and deletes no set.
unfoldable pub fits : (String → Kind) → Command → Bool
fits kind (get key) = is_text (kind key)
fits kind (ttl key) = not (is_members (kind key))
fits kind (set key value ex) = is_text (kind key) && ltb 0 ex
fits kind (delete keys) = every (λ key. not (is_members (kind key))) keys
fits kind (incr key) = is_number (kind key)
fits kind (expire key n) = not (is_members (kind key)) && ltb 0 n
fits kind (sadd key member) = is_members (kind key)
fits kind (srem key member) = is_members (kind key)
fits kind (smembers key) = is_members (kind key)

abbrev pub counted : {S : Type 0} → ℕ × S → Answer × S
counted (n, s) = (number n, s)

unfoldable pub serve : (redis : Redis) → Command → redis.State → Answer × redis.State
serve redis (get key) s = (text (redis.get key s), s)
serve redis (ttl key) s = (seconds (redis.ttl key s), s)
serve redis (set key value ex) s = (done, redis.set key value ex s)
serve redis (delete keys) s = (done, redis.delete keys s)
serve redis (incr key) s = counted (redis.incr key s)
serve redis (expire key n) s = (done, redis.expire key n s)
serve redis (sadd key member) s = (done, redis.sadd key member s)
serve redis (srem key member) s = (done, redis.srem key member s)
serve redis (smembers key) s = (members (λ x. contains x (redis.smembers key s)), s)

abbrev pub tried : FakeRedis → Option (ℕ × FakeRedis) → Answer × FakeRedis
tried f none = (failed, f)
tried f (some (n, g)) = (number n, g)

unfoldable pub fake : (ℕ → String) → (String → Option ℕ) → Command → FakeRedis → Answer × FakeRedis
fake str int (get key) f = (text (Fake.get key f), f)
fake str int (ttl key) f = (seconds (Fake.ttl key f), f)
fake str int (set key value ex) f = (done, (Fake.set key value (some ex) f).1)
fake str int (delete keys) f = (done, (Fake.delete keys f).1)
fake str int (incr key) f = tried f (Fake.incr str int key f)
fake str int (expire key n) f = (done, (Fake.expire key n f).1)
fake str int (sadd key member) f = (done, (Fake.sadd key (member ∷ []) f).1)
fake str int (srem key member) f = (done, (Fake.srem key (member ∷ []) f).1)
fake str int (smembers key) f = (members (λ x. contains x (Fake.smembers key f)), f)

-- The answers to a sequence of commands.
abbrev pub answers : {S : Type 0} → (Command → S → Answer × S) → List Command → S → List Answer
answers step [] s = []
answers step (c ∷ l) s = (step c s).0 ∷ answers step l (step c s).1
