-- ===== src/Auth/Protocol.antt =====
-- `UserRepositoryProtocol` of app/auth/repository.py: what `AuthService` needs from a user store,
-- as operations with the laws that it relies on. `write` is the effect of attribute assignments on
-- an object that the store has handed out; its `updated_at`, which nothing of the code reads for a
-- user, is not followed.
use task_mgt_app.Base.{String, ◌≡◌, Option, none, some, ◌==◌, if◌then◌else◌}
use task_mgt_app.Auth.Model.{User}
use task_mgt_app.Entity.{Uuid}
use task_mgt_app.Errors.{Result, ok}

pub record UserRepositoryProtocol (lower : String → String) : Type 1 where
  pub State : Type 0
  pub get_by_id : Uuid → State → Result (Option User)
  pub get_by_email : String → State → Result (Option User)
  pub add : User → State → Result User × State
  pub write : User → State → State
  -- what the store keeps to (unique ids, say), and an id that no row has
  pub IsValid : State → Type 0
  pub IsFresh : Uuid → State → Type 0
  pub get_by_id_sound :
      (i : Uuid) (u : User) (s : State)
      → get_by_id i s ≡ ok (some u)
      → (u.id ≡ i) × (u.deleted_at ≡ none)
  pub get_by_email_sound :
      (e : String) (u : User) (s : State)
      → IsValid s
      → get_by_email e s ≡ ok (some u)
      → (u.email ≡ lower e) × (get_by_id u.id s ≡ ok (some u))
  pub get_by_id_total :
      (i : Uuid) (s : State) → IsValid s → (o : Option User) × (get_by_id i s ≡ ok o)
  pub get_by_email_total :
      (e : String) (s : State) → IsValid s → (o : Option User) × (get_by_email e s ≡ ok o)
  -- assignments that keep the id, the address and the deletion mark
  pub write-IsValid :
      (u old : User) (s : State)
      → IsValid s
      → get_by_id u.id s ≡ ok (some old)
      → u.email ≡ old.email
      → u.deleted_at ≡ none
      → IsValid (write u s)
  pub get_by_id-write :
      (i : Uuid) (u old : User) (s : State)
      → IsValid s
      → get_by_id u.id s ≡ ok (some old)
      → u.deleted_at ≡ none
      → get_by_id i (write u s) ≡ (if u.id == i then ok (some u) else get_by_id i s)
  pub get_by_email-write :
      (e : String) (u old v : User) (s : State)
      → IsValid s
      → get_by_id u.id s ≡ ok (some old)
      → u.email ≡ old.email
      → u.deleted_at ≡ none
      → get_by_email e s ≡ ok (some v)
      → get_by_email e (write u s) ≡ ok (some (if u.id == v.id then u else v))
  -- an insert with a new id and an address that no live user has
  pub add_new :
      (u : User) (s : State)
      → IsValid s
      → IsFresh u.id s
      → u.deleted_at ≡ none
      → lower u.email ≡ u.email
      → get_by_email u.email s ≡ ok none
      → ((add u s).0 ≡ ok u) × IsValid (add u s).1
  pub get_by_id-add :
      (i : Uuid) (u : User) (s : State)
      → IsFresh u.id s
      → (add u s).0 ≡ ok u
      → u.deleted_at ≡ none
      → get_by_id i (add u s).1 ≡ (if u.id == i then ok (some u) else get_by_id i s)
  pub get_by_email-add :
      (e : String) (u : User) (s : State)
      → IsValid s
      → IsFresh u.id s
      → (add u s).0 ≡ ok u
      → u.deleted_at ≡ none
      → lower e ≡ u.email
      → get_by_email e s ≡ ok none
      → get_by_email e (add u s).1 ≡ ok (some u)
