-- ===== src/Auth/Repository/Finds.antt =====
-- What `UserRepository` finds, and what it finds behind a write.
use task_mgt_app.Base.{
  String, ◌≡◌, sym, ap, ◌∙◌, true, none, some, List, ◌∷◌, filter, arith, str_eq_iff, ◌==◌, ==_iff,
  if◌then◌else◌, Bool-cases, inl, inr,
}
use task_mgt_app.Auth.Model.{User}
use task_mgt_app.Auth.Repository.{user_model, accepts, has_email, get_by_email, add}
use task_mgt_app.Auth.Repository.Rows.{
  id_of, Unique, live_at, live_with, one_of-email, first-at, Unique-put, one_of_sound,
}
use task_mgt_app.Entity.{Uuid}
use task_mgt_app.Errors.{ok, err, integrity_error}
use task_mgt_app.Repository.{active, has_id}
use task_mgt_app.Repository as Base
use task_mgt_app.Repository.Lookup.{
  Distinct, first, put, Distinct-put, first_sound, one_of-filter, any-first_pinned, first-put_same,
  first-put_other,
}
use task_mgt_app.Sql.{Sql, one_of}

-- What the constraints of the table keep.
pub record IsKept (t : List User) : Type 0 where
  pub ids : Distinct id_of t
  pub emails : Unique t

pub live_at_pins : (i : Uuid) (u : User) → live_at i u ≡ true → u.id ≡ i
live_at_pins i u h = ground arith

pub ok_inv : {A : Type 0} (a b : A) → ok a ≡ ok b → a ≡ b
ok_inv a b h = cc

module _ (sql : Sql) (lower : String → String) where
  pub get_by_id_lem :
      (i : Uuid) (t : List User) → Base.get_by_id sql user_model i t ≡ one_of (filter (live_at i) t)
  unfolding Base.get_by_id active has_id
  get_by_id_lem i t = sql.scalar_one_or_none_lem _ ∙ ap one_of (sql.select_lem (live_at i) t)

  pub get_by_email_lem :
      (e : String) (t : List User)
      → get_by_email sql lower e t ≡ one_of (filter (live_with (lower e)) t)
  unfolding get_by_email has_email active
  get_by_email_lem e t =
      sql.scalar_one_or_none_lem _ ∙ ap one_of (sql.select_lem (live_with (lower e)) t)

  pub write_lem : (u : User) (t : List User) → Base.overwrite sql user_model u t ≡ put id_of u t
  unfolding Base.overwrite has_id
  write_lem u t = sql.update_lem _ _ t

  pub add_lem :
      (u : User) (t : List User)
      → add sql lower u t ≡ (if accepts u t then (ok u, u ∷ t) else (err integrity_error, t))
  unfolding add Base.add
  add_lem u t = sql.insert_lem _ u t

  pub by_id :
      (i : Uuid) (t : List User)
      → Distinct id_of t
      → Base.get_by_id sql user_model i t ≡ ok (first id_of (live_at i) t)
  by_id i t d = get_by_id_lem i t ∙ one_of-filter id_of i (live_at i) t (live_at_pins i) d

  pub by_email :
      (e : String) (t : List User)
      → Unique t
      → get_by_email sql lower e t ≡ ok (first id_of (live_with (lower e)) t)
  by_email e t q = get_by_email_lem e t ∙ one_of-email (lower e) t q

  pub get_by_id_sound :
      (i : Uuid) (u : User) (t : List User)
      → Base.get_by_id sql user_model i t ≡ ok (some u)
      → (u.id ≡ i) × (u.deleted_at ≡ none)
  get_by_id_sound i u t h =
      let met = one_of_sound (live_at i) u t (sym (get_by_id_lem i t) ∙ h) in
      (live_at_pins i u met, ground arith)

  pub get_by_email_sound :
      (e : String) (u : User) (t : List User)
      → IsKept t
      → get_by_email sql lower e t ≡ ok (some u)
      → (u.email ≡ lower e) × (Base.get_by_id sql user_model u.id t ≡ ok (some u))
  get_by_email_sound e u t v h =
      let found = ok_inv _ _ (sym (by_email e t v.emails) ∙ h) in
      let met = first_sound id_of (live_with (lower e)) u t found in
      (
        (str_eq_iff u.email (lower e)).0 (ground arith),
        by_id u.id t v.ids ∙ ap ok (first-at (live_with (lower e)) u t v.ids found (ground arith)),
      )

  pub row_of :
      (u old : User) (t : List User)
      → IsKept t
      → Base.get_by_id sql user_model u.id t ≡ ok (some old)
      → first id_of (live_at u.id) t ≡ some old
  row_of u old t v h = ok_inv _ _ (sym (by_id u.id t v.ids) ∙ h)

  pub write-IsKept :
      (u old : User) (t : List User)
      → IsKept t
      → Base.get_by_id sql user_model u.id t ≡ ok (some old)
      → u.email ≡ old.email
      → u.deleted_at ≡ none
      → IsKept (Base.overwrite sql user_model u t)
  write-IsKept u old t v h same live = rw write_lem (record {
    ids = Distinct-put id_of u t v.ids;
    emails = Unique-put u old same live t v.ids (row_of u old t v h) v.emails;
  })

  pub get_by_id-write :
      (i : Uuid) (u old : User) (t : List User)
      → IsKept t
      → Base.get_by_id sql user_model u.id t ≡ ok (some old)
      → u.deleted_at ≡ none
      → Base.get_by_id sql user_model i (Base.overwrite sql user_model u t)
        ≡ (if u.id == i then ok (some u) else Base.get_by_id sql user_model i t)
  get_by_id-write i u old t v h live =
      let found = row_of u old t v h in
      let kept = Distinct-put id_of u t v.ids in
      rw (write_lem u t) (
        by_id i (put id_of u t) kept ∙ elim (Bool-cases (u.id == i)) [
          | inl same ↦
              (let e = (==_iff u.id i).0 same in
                rw same (
                  ap ok (
                    first-put_same id_of (live_at i) u t (λ a k. live_at_pins i a k ∙ sym e)
                      (any-first_pinned id_of u.id (live_at u.id) old t (live_at_pins u.id) found)
                      (ground arith))))
          | inr other ↦ rw other (
              ap ok (first-put_other id_of i (live_at i) u t (live_at_pins i) other)
              ∙ sym (by_id i t v.ids))
        ])
