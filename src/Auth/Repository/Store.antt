-- ===== src/Auth/Repository/Store.antt =====
-- `UserRepository` as a `UserRepositoryProtocol`.
use task_mgt_app.Base.{
  String, ◌≡◌, refl, sym, ap, ◌∙◌, true, false, none, some, List, [], ◌∷◌, any, arith, str_eq,
  str_eq_refl, ◌==◌, if◌then◌else◌, Bool-cases, inl, inr,
}
use task_mgt_app.Auth.Model.{User}
use task_mgt_app.Auth.Protocol.{UserRepositoryProtocol}
use task_mgt_app.Auth.Repository.{user_model, clashes, accepts, get_by_email, add}
use task_mgt_app.Auth.Repository.Rows.{
  id_of, live_at, live_with, Unique-put, first-email_put, no_clash,
}
use task_mgt_app.Auth.Repository.Finds.{
  IsKept, live_at_pins, ok_inv, get_by_id_lem, get_by_email_lem, write_lem, add_lem, by_id,
  by_email, get_by_id_sound, get_by_email_sound, row_of, write-IsKept, get_by_id-write,
}
use task_mgt_app.Entity.{Uuid}
use task_mgt_app.Errors.{ok, err, integrity_error}
use task_mgt_app.Repository.{active, has_id}
use task_mgt_app.Repository as Base
use task_mgt_app.Repository.Lookup.{at, first, put, filter-absent}
use task_mgt_app.Sql.{Sql, one_of}

module _ (sql : Sql) (lower : String → String) where
  pub get_by_email-write :
      (e : String) (u old v : User) (t : List User)
      → IsKept t
      → Base.get_by_id sql user_model u.id t ≡ ok (some old)
      → u.email ≡ old.email
      → u.deleted_at ≡ none
      → get_by_email sql lower e t ≡ ok (some v)
      → get_by_email sql lower e (Base.overwrite sql user_model u t)
        ≡ ok (some (if u.id == v.id then u else v))
  get_by_email-write e u old v t k h same live f =
      let row = row_of sql lower u old t k h in
      let found = ok_inv _ _ (sym (by_email sql lower e t k.emails) ∙ f) in
      rw (write_lem sql lower u t) (
        by_email sql lower e (put id_of u t) (Unique-put u old same live t k.ids row k.emails)
        ∙ ap ok (first-email_put u old same live (lower e) v t k.ids row found))

  accepts-new :
      (u : User) (t : List User)
      → IsKept t
      → any (at id_of u.id) t ≡ false
      → lower u.email ≡ u.email
      → get_by_email sql lower u.email t ≡ ok none
      → accepts u t ≡ true
  unfolding accepts
  accepts-new u t k fresh low h =
      let missed = ok_inv _ _ (sym (by_email sql lower u.email t k.emails) ∙ h) in
      let free : first id_of (live_with u.email) t ≡ none =
        ap (λ e. first id_of (live_with e) t) (sym low) ∙ missed in
      rw (fresh, no_clash u t free)

  pub add_new :
      (u : User) (t : List User)
      → IsKept t
      → any (at id_of u.id) t ≡ false
      → u.deleted_at ≡ none
      → lower u.email ≡ u.email
      → get_by_email sql lower u.email t ≡ ok none
      → ((add sql lower u t).0 ≡ ok u) × IsKept (add sql lower u t).1
  add_new u t k fresh live low h =
      let missed = ok_inv _ _ (sym (by_email sql lower u.email t k.emails) ∙ h) in
      let free : first id_of (live_with u.email) t ≡ none =
        ap (λ e. first id_of (live_with e) t) (sym low) ∙ missed in
      rw (add_lem sql lower u t, accepts-new u t k fresh low h)
        (refl, record { ids = (fresh, k.ids); emails = (no_clash u t free, k.emails) })

  added : (u : User) (t : List User) → (add sql lower u t).0 ≡ ok u → (add sql lower u t).1 ≡ u ∷ t
  added u t h = elim (Bool-cases (accepts u t)) [
    | inl accepted ↦ rw (add_lem sql lower u t, accepted)
    | inr refused ↦ absurd (ground (arith, add_lem sql lower u t))
  ]

  pub get_by_id-add :
      (i : Uuid) (u : User) (t : List User)
      → any (at id_of u.id) t ≡ false
      → (add sql lower u t).0 ≡ ok u
      → u.deleted_at ≡ none
      → Base.get_by_id sql user_model i (add sql lower u t).1
        ≡ (if u.id == i then ok (some u) else Base.get_by_id sql user_model i t)
  get_by_id-add i u t fresh done live = rw (added u t done) (
      get_by_id_lem sql lower i (u ∷ t)
      ∙ ground (
        arith,
        get_by_id_lem sql lower i t,
        filter-absent id_of u.id (live_at u.id) t (live_at_pins u.id) fresh,
      ))

  one_of-none : (l : List User) → one_of l ≡ ok none → l ≡ []
  one_of-none [] h = refl
  one_of-none (u ∷ []) h = cc
  one_of-none (u ∷ v ∷ l) h = cc

  pub get_by_email-add :
      (e : String) (u : User) (t : List User)
      → IsKept t
      → any (at id_of u.id) t ≡ false
      → (add sql lower u t).0 ≡ ok u
      → u.deleted_at ≡ none
      → lower e ≡ u.email
      → get_by_email sql lower e t ≡ ok none
      → get_by_email sql lower e (add sql lower u t).1 ≡ ok (some u)
  get_by_email-add e u t k fresh done live same h =
      let empty = one_of-none _ (sym (get_by_email_lem sql lower e t) ∙ h) in
      let itself : str_eq u.email (lower e) ≡ true = rw same (str_eq_refl u.email) in
      rw (added u t done) (get_by_email_lem sql lower e (u ∷ t) ∙ ground (arith, empty, itself))

  clash_found :
      (u v : User) (t : List User)
      → u.deleted_at ≡ none
      → first id_of (live_with u.email) t ≡ some v
      → any (clashes u) t ≡ true
  unfolding clashes
  clash_found u v [] live h = cc
  clash_found u v (w ∷ t) live h = ground (arith, clash_found u v t live)

  accepts-clash : (u : User) (t : List User) → any (clashes u) t ≡ true → accepts u t ≡ false
  unfolding accepts
  accepts-clash u t h = ground arith

  -- In a users table in which every id stands once, and every address once among the live rows, let
  -- `get_by_email` find a user for an address. The insert of another live row with the lower case
  -- form of that address raises an IntegrityError, and the table is as before.
  pub insert_clash :
      (e : String) (u v : User) (t : List User)
      → IsKept t
      → u.deleted_at ≡ none
      → u.email ≡ lower e
      → get_by_email sql lower e t ≡ ok (some v)
      → add sql lower u t ≡ (err integrity_error, t)
  insert_clash e u v t k live same h =
      let found = ok_inv _ _ (sym (by_email sql lower e t k.emails) ∙ h) in
      let refused =
        accepts-clash u t
          (clash_found u v t live (ap (λ m. first id_of (live_with m) t) same ∙ found)) in
      add_lem sql lower u t
      ∙ ap (λ b. if b then (ok u, u ∷ t) else (err integrity_error, t)) refused

  -- The store of the auth service, as the application constructs it.
  abbrev pub sql_users : UserRepositoryProtocol lower
  sql_users = record {
    State = List User;
    get_by_id = Base.get_by_id sql user_model;
    get_by_email = get_by_email sql lower;
    add = add sql lower;
    write = Base.overwrite sql user_model;
    IsValid = IsKept;
    IsFresh = λ i t. any (at id_of i) t ≡ false;
    get_by_id_sound = get_by_id_sound sql lower;
    get_by_email_sound = get_by_email_sound sql lower;
    get_by_id_total = λ i t k. (_, by_id sql lower i t k.ids);
    get_by_email_total = λ e t k. (_, by_email sql lower e t k.emails);
    write-IsValid = write-IsKept sql lower;
    get_by_id-write = get_by_id-write sql lower;
    get_by_email-write = get_by_email-write;
    add_new = add_new;
    get_by_id-add = get_by_id-add;
    get_by_email-add = get_by_email-add;
  }
