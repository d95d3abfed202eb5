-- ===== src/Tests/MemoryRedis/Operations.antt =====
-- A Redis in memory: one key space, entries with deadlines, and a clock.
use task_mgt_app.Base.{
  ℕ, ◌+◌, ◌-◌, String, ◌≡◌, false, Option, none, some, List, [], ◌∷◌, arith, ltb, str_eq,
  str_eq_iff, if◌then◌else◌, ℤ, pos, negsuc,
}
use task_mgt_app.Redis.{contains}

pub data Value : Type 0 where
  text : String → Value
  number : ℕ → Value
  members : List String → Value

pub record Entry : Type 0 where
  pub value : Value
  pub deadline : Option ℕ

pub record Memory : Type 0 where
  pub now : ℕ
  pub entries : String → Option Entry

abbrev pub alive : ℕ → Option Entry → Option Entry
alive now none = none
alive now (some e) = elim e.deadline [ none ↦ some e | some d ↦ if ltb now d then some e else none ]

abbrev pub look : String → Memory → Option Entry
look k s = alive s.now (s.entries k)

abbrev pub write : String → Option Entry → Memory → Memory
write k e s = record s { entries = λ j. if str_eq k j then e else s.entries j }

abbrev pub text_of : Option Entry → Option String
text_of none = none
text_of (some e) = elim e.value [ text v ↦ some v | number n ↦ some "a number" | members l ↦ none ]

abbrev pub number_of : Option Entry → ℕ
number_of none = 0
number_of (some e) = elim e.value [ text v ↦ 0 | number n ↦ n | members l ↦ 0 ]

abbrev pub members_of : Option Entry → List String
members_of none = []
members_of (some e) = elim e.value [ text v ↦ [] | number n ↦ [] | members l ↦ l ]

abbrev pub deadline_of : Option Entry → Option ℕ
deadline_of none = none
deadline_of (some e) = e.deadline

abbrev pub ttl_of : ℕ → Option Entry → ℤ
ttl_of now none = negsuc 1
ttl_of now (some e) = elim e.deadline [ none ↦ negsuc 0 | some d ↦ pos (d - now) ]

abbrev pub renew : ℕ → Option Entry → Option Entry
renew d none = none
renew d (some e) = some (record e { deadline = some d })

abbrev pub without : String → List String → List String
without m [] = []
without m (x ∷ l) = let rest = without m l in if str_eq m x then rest else x ∷ rest

pub contains-without :
    (m x : String) (l : List String)
    → contains x (without m l) ≡ (if str_eq m x then false else contains x l)
contains-without m x [] = ground arith
contains-without m x (y ∷ l) =
    ground (arith, contains-without m x l, str_eq_iff m y, str_eq_iff y x, str_eq_iff m x)

abbrev pub get : String → Memory → Option String
get k s = text_of (look k s)

abbrev pub count : String → Memory → ℕ
count k s = number_of (look k s)

abbrev pub smembers : String → Memory → List String
smembers k s = members_of (look k s)

abbrev pub set : String → String → ℕ → Memory → Memory
set k v ex s = write k (some (record { value = text v; deadline = some (s.now + ex) })) s

abbrev pub delete : List String → Memory → Memory
delete ks s = record s { entries = λ j. if contains j ks then none else s.entries j }

abbrev pub incr : String → Memory → ℕ × Memory
incr k s =
    let n = number_of (look k s) + 1 in
    (n, write k (some (record { value = number n; deadline = deadline_of (look k s) })) s)

abbrev pub expire : String → ℕ → Memory → Memory
expire k n s = write k (renew (s.now + n) (look k s)) s

abbrev pub sadd : String → String → Memory → Memory
sadd k m s =
    write k
      (some
        (record { value = members (m ∷ members_of (look k s)); deadline = deadline_of (look k s) }))
      s

abbrev pub with_members : List String → Option Entry → Option Entry
with_members l none = none
with_members l (some e) = elim e.value [
  | text v ↦ some e
  | number n ↦ some e
  | members _ ↦ some (record e { value = members l })
]

abbrev pub srem : String → String → Memory → Memory
srem k m s = write k (with_members (without m (members_of (look k s))) (look k s)) s

abbrev pub elapse : ℕ → Memory → Memory
elapse n s = record s { now = s.now + n }

abbrev pub ttl : String → Memory → ℤ
ttl k s = ttl_of s.now (look k s)
