-- ===== src/Redis/Dictionaries.antt =====
-- What the operations of `FakeRedis` (tests/unit/fakes.py) leave in its three dictionaries.
use task_mgt_app.Base.{
  ℕ, String, ◌≡◌, ◌∙◌, refl, false, ◌||◌, ◌&&◌, Option, none, some, List, [], ◌∷◌, arith, str_eq,
  str_eq_iff, if◌then◌else◌,
}
use task_mgt_app.Base.Dict.{lookup, lookup-insert, lookup-remove}
use task_mgt_app.Redis.{contains}
use task_mgt_app.Redis.Fake as Fake
use task_mgt_app.Redis.Fake.{FakeRedis, is_some, default, drop_key, united}

-- The dictionaries behind each operation.
pub store-set :
    (k j v : String) (ex : ℕ) (f : FakeRedis)
    → lookup j (Fake.set k v (some ex) f).1.store
      ≡ (if str_eq k j then some v else lookup j f.store)
unfolding Fake.set
store-set k j v ex f = lookup-insert k j v f.store

pub ttls-set :
    (k j v : String) (ex : ℕ) (f : FakeRedis)
    → lookup j (Fake.set k v (some ex) f).1.ttls ≡ (if str_eq k j then some ex else lookup j f.ttls)
unfolding Fake.set Fake.expiring
ttls-set k j v ex f = lookup-insert k j ex f.ttls

store-drop :
    (k j : String) (f : FakeRedis)
    → lookup j (drop_key k f).store ≡ (if str_eq k j then none else lookup j f.store)
unfolding drop_key
store-drop k j f = ground (arith, lookup-remove k j f.store, str_eq_iff k j)

ttls-drop :
    (k j : String) (f : FakeRedis)
    → lookup j (drop_key k f).ttls ≡ (if str_eq k j then none else lookup j f.ttls)
unfolding drop_key
ttls-drop k j f = lookup-remove k j f.ttls

sets-drop : (k : String) (f : FakeRedis) → (drop_key k f).sets ≡ f.sets
unfolding drop_key
sets-drop k f = refl

pub store-delete :
    (ks : List String) (j : String) (f : FakeRedis)
    → lookup j (Fake.delete ks f).1.store ≡ (if contains j ks then none else lookup j f.store)
unfolding Fake.delete
store-delete [] j f = refl
store-delete (k ∷ ks) j f =
    ground (arith, store-delete ks j (drop_key k f), store-drop k j f, str_eq_iff k j)

pub ttls-delete :
    (ks : List String) (j : String) (f : FakeRedis)
    → lookup j (Fake.delete ks f).1.ttls ≡ (if contains j ks then none else lookup j f.ttls)
unfolding Fake.delete
ttls-delete [] j f = refl
ttls-delete (k ∷ ks) j f =
    ground (arith, ttls-delete ks j (drop_key k f), ttls-drop k j f, str_eq_iff k j)

pub sets-delete : (ks : List String) (f : FakeRedis) → (Fake.delete ks f).1.sets ≡ f.sets
unfolding Fake.delete
sets-delete [] f = refl
sets-delete (k ∷ ks) f = sets-delete ks (drop_key k f) ∙ sets-drop k f

pub store-expire : (k : String) (n : ℕ) (f : FakeRedis) → (Fake.expire k n f).1.store ≡ f.store
unfolding Fake.expire
store-expire k n f = ground arith

pub sets-expire : (k : String) (n : ℕ) (f : FakeRedis) → (Fake.expire k n f).1.sets ≡ f.sets
unfolding Fake.expire
sets-expire k n f = ground arith

pub ttls-expire :
    (k j : String) (n : ℕ) (f : FakeRedis)
    → lookup j (Fake.expire k n f).1.ttls
      ≡ (if str_eq k j && is_some (lookup k f.store) then some n else lookup j f.ttls)
unfolding Fake.expire
ttls-expire k j n f = ground (arith, lookup-insert k j n f.ttls, str_eq_iff k j)

contains-difference :
    (x m : String) (l : List String)
    → contains x (Fake.difference l (m ∷ [])) ≡ (if str_eq m x then false else contains x l)
contains-difference x m [] = ground arith
contains-difference x m (y ∷ l) =
    ground (arith, contains-difference x m l, str_eq_iff m y, str_eq_iff y x, str_eq_iff m x)

contains-united :
    (x m : String) (l : List String) → contains x (united l (m ∷ [])) ≡ (str_eq m x || contains x l)
unfolding united
contains-united x m l = ground (arith, str_eq_iff m x)

pub smembers-sadd :
    (k j m x : String) (f : FakeRedis)
    → contains x (Fake.smembers j (Fake.sadd k (m ∷ []) f).1) ≡ (
        if str_eq k j
        then str_eq m x || contains x (Fake.smembers k f)
        else contains x (Fake.smembers j f))
unfolding Fake.smembers Fake.sadd
smembers-sadd k j m x f = ground (
  arith,
  lookup-insert k j (united (default [] (lookup k f.sets)) (m ∷ [])) f.sets,
  contains-united x m (default [] (lookup k f.sets)),
)

members-with_bucket :
    (k j m x : String) (b : Option (List String)) (f : FakeRedis)
    → lookup k f.sets ≡ b
    → contains x (Fake.smembers j (Fake.with_bucket k b (m ∷ []) f)) ≡ (
        if str_eq k j
        then (if str_eq m x then false else contains x (Fake.smembers k f))
        else contains x (Fake.smembers j f))
unfolding Fake.smembers
members-with_bucket k j m x none f h = ground (arith, str_eq_iff k j)
members-with_bucket k j m x (some b) f h =
    ground (arith, lookup-insert k j (Fake.difference b (m ∷ [])) f.sets, contains-difference x m b)

pub smembers-srem :
    (k j m x : String) (f : FakeRedis)
    → contains x (Fake.smembers j (Fake.srem k (m ∷ []) f).1) ≡ (
        if str_eq k j
        then (if str_eq m x then false else contains x (Fake.smembers k f))
        else contains x (Fake.smembers j f))
unfolding Fake.srem
smembers-srem k j m x f = members-with_bucket k j m x (lookup k f.sets) f refl

pub store-srem :
    (k m : String) (b : Option (List String)) (f : FakeRedis)
    → ((Fake.with_bucket k b (m ∷ []) f).store ≡ f.store)
      × ((Fake.with_bucket k b (m ∷ []) f).ttls ≡ f.ttls)
store-srem k m none f = (refl, refl)
store-srem k m (some b) f = (refl, refl)
