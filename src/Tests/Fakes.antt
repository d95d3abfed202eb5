-- ===== src/Tests/Fakes.antt =====
-- An example for the fake Redis: the counts of failed logins, a lock, and the sessions of a user.
use Prim.Native.Char.{Char}
use task_mgt_app.Base.{
  ℕ, zero, suc, String, ◌≡◌, refl, true, Option, none, some, List, [], ◌∷◌, str_eq, ap,
  if◌then◌else◌,
}
use task_mgt_app.Redis.Answers.{fresh_alike}
use task_mgt_app.Redis.Commands.{
  Command, get, ttl, set, delete, incr, expire, sadd, srem, smembers, Kind, for_text, for_number,
  for_members, fits, serve, fake, answers, every,
}
use task_mgt_app.Redis.Fake as Fake
use task_mgt_app.Redis.Fake.{FakeRedis, fresh}
use task_mgt_app.Tests.Auth.{empty_redis}
use task_mgt_app.Tests.MemoryRedis.{memory_redis}

-- Numbers as tallies.
abbrev tally : ℕ → String
tally zero = "0"
tally (suc n) = let c : Char = "u" in String.◌∷◌ c (tally n)

abbrev size : String → ℕ
size String.[] = 0
size (String.◌∷◌ c s) = suc (size s)

abbrev tally_of : String → Option ℕ
tally_of String.[] = none
tally_of (String.◌∷◌ c s) = some (size s)

size-tally : (n : ℕ) → size (tally n) ≡ suc n
size-tally zero = refl
size-tally (suc n) = ap suc (size-tally n)

tally_of-tally : (n : ℕ) → tally_of (tally n) ≡ some n
tally_of-tally zero = refl
tally_of-tally (suc n) = ap some (size-tally n)

abbrev kind : String → Kind
kind key =
    if str_eq key "login_attempts:ann"
    then for_number
    else if str_eq key "user_refresh_tokens:u"
    then for_members
    else for_text

abbrev commands : List Command
commands =
    get "login_lock:ann"
    ∷ incr "login_attempts:ann"
    ∷ expire "login_attempts:ann" 900
    ∷ incr "login_attempts:ann"
    ∷ ttl "login_attempts:ann"
    ∷ set "login_lock:ann" "1" 900
    ∷ delete ("login_attempts:ann" ∷ [])
    ∷ ttl "login_lock:ann"
    ∷ incr "login_attempts:ann"
    ∷ sadd "user_refresh_tokens:u" "a"
    ∷ sadd "user_refresh_tokens:u" "b"
    ∷ srem "user_refresh_tokens:u" "a"
    ∷ smembers "user_refresh_tokens:u"
    ∷ get "login_lock:ann"
    ∷ []

abbrev one_session : FakeRedis
one_session = record { store = []; ttls = []; sets = ("user_refresh_tokens:u", "b" ∷ []) ∷ [] }

commands_fit : every (fits kind) commands ≡ true
unfolding fits
commands_fit = refl

fresh_alike_example :
    (answers (fake tally tally_of) commands fresh
      ≡ answers (serve memory_redis) commands empty_redis)
    × ((Fake.delete ("user_refresh_tokens:u" ∷ []) one_session).1.sets ≡ one_session.sets)
fresh_alike_example =
    fresh_alike memory_redis kind tally tally_of empty_redis (λ k. (refl, refl, refl, refl))
      tally_of-tally refl commands commands_fit ("user_refresh_tokens:u" ∷ []) one_session
