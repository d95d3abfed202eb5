-- ===== src/Redis/Fake.antt =====
-- `FakeRedis` of tests/unit/fakes.py: three dictionaries, and no clock. Python's `str` and `int` on
-- numbers are parameters; an `int` that raises is `none`.
use task_mgt_app.Base.{
  ℕ, ◌+◌, ◌-◌, String, Bool, true, false, Option, none, some, List, [], ◌∷◌, length, filter, not,
  if◌then◌else◌, ℤ, pos, negsuc,
}
use task_mgt_app.Base.Dict.{Dict, lookup, insert, remove}
use task_mgt_app.Redis.{contains}

pub record FakeRedis : Type 0 where
  pub store : Dict String
  pub ttls : Dict ℕ
  pub sets : Dict (List String)

-- `FakeRedis()`
abbrev pub fresh : FakeRedis
fresh = record { store = []; ttls = []; sets = [] }

-- `key in d`
abbrev pub is_some : {A : Type 0} → Option A → Bool
is_some none = false
is_some (some a) = true

-- `d.get(key, other)`
abbrev pub default : {A : Type 0} → A → Option A → A
default other none = other
default other (some a) = a

unfoldable pub get : String → FakeRedis → Option String
unfolding lookup
get key f = lookup key f.store

unfoldable pub expiring : String → Option ℕ → Dict ℕ → Dict ℕ
unfolding insert
expiring key none ttls = ttls
expiring key (some ex) ttls = insert key ex ttls

unfoldable pub set : String → String → Option ℕ → FakeRedis → Bool × FakeRedis
unfolding insert expiring
set key value ex f =
    (true, record f { store = insert key value f.store; ttls = expiring key ex f.ttls })

-- A step of the loop of `delete`, without the count.
unfoldable pub drop_key : String → FakeRedis → FakeRedis
unfolding lookup remove
drop_key key f = record f {
  store = if is_some (lookup key f.store) then remove key f.store else f.store;
  ttls = remove key f.ttls;
}

unfoldable pub delete : List String → FakeRedis → ℕ × FakeRedis
unfolding lookup drop_key
delete [] f = (0, f)
delete (key ∷ keys) f =
    let rest = delete keys (drop_key key f) in
    ((if is_some (lookup key f.store) then 1 else 0) + rest.0, rest.1)

abbrev pub seconds_of : Option ℕ → ℤ
seconds_of none = negsuc 0
seconds_of (some n) = pos n

unfoldable pub ttl : String → FakeRedis → ℤ
unfolding lookup
ttl key f = if is_some (lookup key f.store) then seconds_of (lookup key f.ttls) else negsuc 1

unfoldable pub expire : String → ℕ → FakeRedis → Bool × FakeRedis
unfolding lookup insert
expire key seconds f = (
  true,
  if is_some (lookup key f.store) then record f { ttls = insert key seconds f.ttls } else f,
)

-- `bucket.update(values)`; a set is a list in which nothing stands twice.
unfoldable pub united : List String → List String → List String
united bucket [] = bucket
united bucket (v ∷ values) = united (if contains v bucket then bucket else v ∷ bucket) values

unfoldable pub sadd : String → List String → FakeRedis → ℕ × FakeRedis
unfolding lookup insert united
sadd key values f =
    let bucket = default [] (lookup key f.sets) in
    let larger = united bucket values in
    (length larger - length bucket, record f { sets = insert key larger f.sets })

-- `bucket.difference_update(values)`
abbrev pub difference : List String → List String → List String
difference bucket values = filter (λ x. not (contains x values)) bucket

-- The bucket of a key that has none is not kept.
abbrev pub with_bucket : String → Option (List String) → List String → FakeRedis → FakeRedis
with_bucket key none values f = f
with_bucket key (some bucket) values f = record f {
  sets = insert key (difference bucket values) f.sets;
}

unfoldable pub srem : String → List String → FakeRedis → ℕ × FakeRedis
unfolding lookup insert
srem key values f =
    let bucket = lookup key f.sets in
    (length (filter (λ v. contains v (default [] bucket)) values), with_bucket key bucket values f)

unfoldable pub smembers : String → FakeRedis → List String
unfolding lookup
smembers key f = default [] (lookup key f.sets)

module _ (str : ℕ → String) (int : String → Option ℕ) where
  abbrev pub counted : String → FakeRedis → Option ℕ → Option (ℕ × FakeRedis)
  counted key f none = none
  counted key f (some n) = some (n + 1, record f { store = insert key (str (n + 1)) f.store })

  -- A text that is no number raises a ValueError.
  unfoldable pub incr : String → FakeRedis → Option (ℕ × FakeRedis)
  unfolding lookup insert
  incr key f = counted key f (int (default "0" (lookup key f.store)))
