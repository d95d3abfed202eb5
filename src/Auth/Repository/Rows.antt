-- ===== src/Auth/Repository/Rows.antt =====
-- Tables of users in which every id stands once, and every address once among the live rows.
use task_mgt_app.Base.{
  String, ◌≡◌, refl, ◌∙◌, Bool, true, false, ◌&&◌, none, some, List, [], ◌∷◌, any, filter, arith,
  str_eq, str_eq_iff, is_none, ◌==◌, if◌then◌else◌,
}
use task_mgt_app.Auth.Model.{User}
use task_mgt_app.Auth.Repository.{clashes}
use task_mgt_app.Entity.{Uuid}
use task_mgt_app.Errors.{ok}
use task_mgt_app.Repository.Lookup.{at, Distinct, first, put, first_sound, any-first_pinned}
use task_mgt_app.Sql.{one_of}

abbrev pub id_of : User → Uuid
id_of u = u.id

abbrev pub Unique : List User → Type 0
Unique [] = Unit
Unique (u ∷ t) = (any (clashes u) t ≡ false) × Unique t

-- A live row with an id, and with an address.
abbrev pub live_at : Uuid → User → Bool
live_at i u = is_none u.deleted_at && u.id == i

abbrev pub live_with : String → User → Bool
live_with e u = is_none u.deleted_at && str_eq u.email e

no_email :
    (e : String) (u : User) (t : List User)
    → live_with e u ≡ true
    → any (clashes u) t ≡ false
    → filter (live_with e) t ≡ []
unfolding clashes
no_email e u [] h k = refl
no_email e u (v ∷ t) h k =
    ground (
      arith,
      no_email e u t,
      str_eq_iff u.email e,
      str_eq_iff v.email e,
      str_eq_iff v.email u.email,
    )

pub one_of-email :
    (e : String) (t : List User)
    → Unique t
    → one_of (filter (live_with e) t) ≡ ok (first id_of (live_with e) t)
one_of-email e [] q = refl
one_of-email e (u ∷ t) (alone, q) = ground (arith, one_of-email e t q, no_email e u t)

-- The row that is found by one condition is found by its id.
pub first-at :
    (p : User → Bool) (u : User) (t : List User)
    → Distinct id_of t
    → first id_of p t ≡ some u
    → u.deleted_at ≡ none
    → first id_of (live_at u.id) t ≡ some u
first-at p u [] d h n = cc
first-at p u (v ∷ t) (fresh, d) h n = ground (arith, first-at p u t d, absent p u t)
  where
    absent :
        (p : User → Bool) (u : User) (t : List User)
        → first id_of p t ≡ some u
        → any (at id_of u.id) t ≡ true
    absent p u [] h = cc
    absent p u (v ∷ t) h = ground (arith, absent p u t)

absent_first :
    (i : Uuid) (t : List User) → any (at id_of i) t ≡ false → first id_of (live_at i) t ≡ none
absent_first i [] h = refl
absent_first i (v ∷ t) h = ground (arith, absent_first i t)

put_absent : (u : User) (t : List User) → any (at id_of u.id) t ≡ false → put id_of u t ≡ t
put_absent u [] h = refl
put_absent u (v ∷ t) h = ground (arith, put_absent u t)

module _ (u old : User) (same : u.email ≡ old.email) (live : u.deleted_at ≡ none) where
  any-clashes-put :
      (w : User) (t : List User)
      → Distinct id_of t
      → first id_of (live_at u.id) t ≡ some old
      → any (clashes w) (put id_of u t) ≡ any (clashes w) t
  unfolding clashes
  any-clashes-put w [] d h = refl
  any-clashes-put w (v ∷ t) (fresh, d) h =
      ground (arith, any-clashes-put w t d, put_absent u t, absent_first u.id t)

  any-clashes_same :
      (v : User) (t : List User)
      → v.email ≡ old.email
      → v.deleted_at ≡ none
      → any (clashes u) t ≡ any (clashes v) t
  unfolding clashes
  any-clashes_same v [] h n = refl
  any-clashes_same v (w ∷ t) h n = ground (arith, any-clashes_same v t h n)

  pub Unique-put :
      (t : List User)
      → Distinct id_of t
      → first id_of (live_at u.id) t ≡ some old
      → Unique t
      → Unique (put id_of u t)
  Unique-put [] d h q = tt
  Unique-put (v ∷ t) (fresh, d) h (alone, q) = ground (
    arith,
    Unique-put t d,
    any-clashes-put v t d,
    any-clashes_same v t,
    put_absent u t,
    absent_first u.id t,
  )

  pub first-email_put :
      (e : String) (v : User) (t : List User)
      → Distinct id_of t
      → first id_of (live_at u.id) t ≡ some old
      → first id_of (live_with e) t ≡ some v
      → first id_of (live_with e) (put id_of u t) ≡ some (if u.id == v.id then u else v)
  first-email_put e v [] d f h = cc
  first-email_put e v (w ∷ t) (fresh, d) f h = ground (
    arith,
    first-email_put e v t d,
    put_absent u t,
    absent_first u.id t,
    first-at (live_with e) v t d,
    first_sound id_of (live_with e) v t,
    any-first_pinned id_of v.id (live_at v.id) v t (λ a k. ground arith),
  )

pub one_of_sound :
    (p : User → Bool) (u : User) (t : List User) → one_of (filter p t) ≡ ok (some u) → p u ≡ true
one_of_sound p u t h = only (filter p t) refl h
  where
    head_of : (p : User → Bool) (u : User) (l t : List User) → filter p t ≡ u ∷ l → p u ≡ true
    head_of p u l [] h = cc
    head_of p u l (v ∷ t) h = ground (arith, head_of p u l t)

    only : (l : List User) → filter p t ≡ l → one_of l ≡ ok (some u) → p u ≡ true
    only [] e h = cc
    only (v ∷ []) e h = head_of p u [] t (e ∙ cc h)
    only (v ∷ w ∷ l) e h = cc

pub no_clash :
    (u : User) (t : List User)
    → first id_of (live_with u.email) t ≡ none
    → any (clashes u) t ≡ false
unfolding clashes
no_clash u [] h = refl
no_clash u (v ∷ t) h = ground (arith, no_clash u t)
