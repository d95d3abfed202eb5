-- ===== src/Auth/Fake.antt =====
-- `FakeUserRepository` of tests/unit/fakes.py, a dictionary of users by id, as a
-- `UserRepositoryProtocol`.
use task_mgt_app.Base.{
  String, ◌≡◌, refl, ◌&&◌, Option, none, some, List, [], ◌∷◌, arith, ◌==◌, str_eq, str_eq_iff,
  is_none, if◌then◌else◌,
}
use task_mgt_app.Auth.Model.{User}
use task_mgt_app.Auth.Protocol.{UserRepositoryProtocol}
use task_mgt_app.Entity.{Uuid}
use task_mgt_app.Errors.{Result, ok}

abbrev pub Users : Type 0
Users = List User

-- self._users.get(entity_id)
unfoldable pub find : Uuid → Users → Option User
find i [] = none
find i (u ∷ s) = if u.id == i then some u else find i s

-- `user if user and user.deleted_at is None else None`
unfoldable pub live : Option User → Option User
live none = none
live (some u) = if is_none u.deleted_at then some u else none

unfoldable pub get_by_id : Uuid → Users → Result (Option User)
unfolding find live
get_by_id i s = ok (live (find i s))

-- self._users[instance.id] = instance
unfoldable pub put : User → Users → Users
put u [] = u ∷ []
put u (v ∷ s) = if v.id == u.id then u ∷ s else v ∷ put u s

unfoldable pub add : User → Users → Result User × Users
unfolding put
add u s = (ok u, put u s)

-- Every id stands once.
abbrev pub Distinct : Users → Type 0
Distinct [] = Unit
Distinct (u ∷ s) = (find u.id s ≡ none) × Distinct s

find-put :
    (i : Uuid) (u : User) (s : Users) → find i (put u s) ≡ (if u.id == i then some u else find i s)
unfolding find put
find-put i u [] = refl
find-put i u (v ∷ s) = ground (arith, find-put i u s)

find_sound : (i : Uuid) (u : User) (s : Users) → find i s ≡ some u → u.id ≡ i
unfolding find
find_sound i u [] h = cc
find_sound i u (v ∷ s) h = ground (arith, find_sound i u s)

pub Distinct-put : (u : User) (s : Users) → Distinct s → Distinct (put u s)
unfolding put find
Distinct-put u [] d = (refl, tt)
Distinct-put u (v ∷ s) d = ground (arith, Distinct-put u s d.1, find-put v.id u s)

module _ (lower : String → String) where
  -- the loop of `get_by_email`
  unfoldable pub scan : String → Users → Option User
  scan e [] = none
  scan e (u ∷ s) = if str_eq u.email (lower e) && is_none u.deleted_at then some u else scan e s

  unfoldable pub get_by_email : String → Users → Result (Option User)
  unfolding scan
  get_by_email e s = ok (scan e s)

  scan_sound :
      (e : String) (u : User) (s : Users)
      → Distinct s
      → scan e s ≡ some u
      → (u.email ≡ lower e) × (u.deleted_at ≡ none) × (find u.id s ≡ some u)
  unfolding scan find
  scan_sound e u [] d h = cc
  scan_sound e u (v ∷ s) d h = ground (arith, scan_sound e u s d.1, str_eq_iff v.email (lower e))

  scan-put :
      (e : String) (u old v : User) (s : Users)
      → Distinct s
      → find u.id s ≡ some old
      → old.deleted_at ≡ none
      → u.email ≡ old.email
      → u.deleted_at ≡ none
      → scan e s ≡ some v
      → scan e (put u s) ≡ some (if u.id == v.id then u else v)
  unfolding scan put find
  scan-put e u old v [] d f l same n h = cc
  scan-put e u old v (x ∷ s) d f l same n h =
      ground (arith, scan-put e u old v s d.1, scan_sound e v s d.1)

  scan-put_new :
      (e : String) (u : User) (s : Users)
      → find u.id s ≡ none
      → u.deleted_at ≡ none
      → lower e ≡ u.email
      → scan e s ≡ none
      → scan e (put u s) ≡ some u
  unfolding scan put find
  scan-put_new e u [] f n same h = ground (arith, str_eq_iff u.email (lower e))
  scan-put_new e u (v ∷ s) f n same h = ground (arith, scan-put_new e u s)

  pub get_by_id_sound :
      (i : Uuid) (u : User) (s : Users)
      → get_by_id i s ≡ ok (some u)
      → (u.id ≡ i) × (u.deleted_at ≡ none)
  unfolding get_by_id live
  get_by_id_sound i u s h = ground (arith, find_sound i u s)

  pub get_by_email_sound :
      (e : String) (u : User) (s : Users)
      → Distinct s
      → get_by_email e s ≡ ok (some u)
      → (u.email ≡ lower e) × (get_by_id u.id s ≡ ok (some u))
  unfolding get_by_email get_by_id live
  get_by_email_sound e u s d h = ground (arith, scan_sound e u s d)

  pub get_by_id-put :
      (i : Uuid) (u : User) (s : Users)
      → u.deleted_at ≡ none
      → get_by_id i (put u s) ≡ (if u.id == i then ok (some u) else get_by_id i s)
  unfolding get_by_id live
  get_by_id-put i u s n = ground (arith, find-put i u s)

  pub get_by_email-put :
      (e : String) (u old v : User) (s : Users)
      → Distinct s
      → get_by_id u.id s ≡ ok (some old)
      → u.email ≡ old.email
      → u.deleted_at ≡ none
      → get_by_email e s ≡ ok (some v)
      → get_by_email e (put u s) ≡ ok (some (if u.id == v.id then u else v))
  unfolding get_by_id get_by_email live
  get_by_email-put e u old v s d f same n h = ground (arith, scan-put e u old v s d)

  pub get_by_email-put_new :
      (e : String) (u : User) (s : Users)
      → find u.id s ≡ none
      → u.deleted_at ≡ none
      → lower e ≡ u.email
      → get_by_email e s ≡ ok none
      → get_by_email e (put u s) ≡ ok (some u)
  unfolding get_by_email
  get_by_email-put_new e u s f n same h = ground (arith, scan-put_new e u s f n same)

  pub get_by_id_total : (i : Uuid) (s : Users) → (o : Option User) × (get_by_id i s ≡ ok o)
  unfolding get_by_id
  get_by_id_total i s = (live (find i s), refl)

  pub get_by_email_total : (e : String) (s : Users) → (o : Option User) × (get_by_email e s ≡ ok o)
  unfolding get_by_email
  get_by_email_total e s = (scan e s, refl)

  pub add_new : (u : User) (s : Users) → Distinct s → ((add u s).0 ≡ ok u) × Distinct (add u s).1
  unfolding add
  add_new u s d = (refl, Distinct-put u s d)

  pub add-eq-put : (u : User) (s : Users) → (add u s).1 ≡ put u s
  unfolding add
  add-eq-put u s = refl

  -- The fake is a user store in the sense of the protocol. An assignment to a user that it handed
  -- out changes the dictionary's own object.
  abbrev pub fake_users : UserRepositoryProtocol lower
  fake_users = record {
    State = Users;
    get_by_id = get_by_id;
    get_by_email = get_by_email;
    add = add;
    write = put;
    IsValid = Distinct;
    IsFresh = λ i s. find i s ≡ none;
    get_by_id_sound = get_by_id_sound;
    get_by_email_sound = get_by_email_sound;
    get_by_id_total = λ i s d. get_by_id_total i s;
    get_by_email_total = λ e s d. get_by_email_total e s;
    write-IsValid = λ u old s d f same n. Distinct-put u s d;
    get_by_id-write = λ i u old s d f n. get_by_id-put i u s n;
    get_by_email-write = get_by_email-put;
    add_new = λ u s d fresh n low h. add_new u s d;
    get_by_id-add = λ i u s fresh done n. rw add-eq-put (get_by_id-put i u s n);
    get_by_email-add =
        λ e u s d fresh done n same h. rw add-eq-put (get_by_email-put_new e u s fresh n same h);
  }
