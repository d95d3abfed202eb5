-- ===== src/Repository/Lookup.antt =====
-- Queries by id, on a table in which every id stands once: the row that is found, and how writes
-- change what is found.
use task_mgt_app.Base.{
  ◌≡◌, refl, Bool, true, false, Option, none, some, List, [], ◌∷◌, map, filter, any, arith, ◌==◌,
  if◌then◌else◌,
}
use task_mgt_app.Entity.{Uuid}
use task_mgt_app.Errors.{ok}
use task_mgt_app.Sql.{one_of}

module _ {A : Type 0} (id : A → Uuid) where
  abbrev pub at : Uuid → A → Bool
  at i a = id a == i

  -- Every id stands once.
  abbrev pub Distinct : List A → Type 0
  Distinct [] = Unit
  Distinct (a ∷ t) = (any (at (id a)) t ≡ false) × Distinct t

  -- A condition that only rows with an id meet.
  abbrev pub Pins : Uuid → (A → Bool) → Type 0
  Pins i p = (a : A) → p a ≡ true → id a ≡ i

  abbrev pub first : (A → Bool) → List A → Option A
  first p [] = none
  first p (a ∷ t) = if p a then some a else first p t

  pub filter-absent :
      (i : Uuid) (p : A → Bool) (t : List A) → Pins i p → any (at i) t ≡ false → filter p t ≡ []
  filter-absent i p [] pins h = refl
  filter-absent i p (a ∷ t) pins h = ground (arith, filter-absent i p t pins, pins a)

  pub one_of-filter :
      (i : Uuid) (p : A → Bool) (t : List A)
      → Pins i p
      → Distinct t
      → one_of (filter p t) ≡ ok (first p t)
  one_of-filter i p [] pins d = refl
  one_of-filter i p (a ∷ t) pins (fresh, d) =
      ground (arith, one_of-filter i p t pins d, filter-absent i p t pins, pins a)

  pub first_sound : (p : A → Bool) (a : A) (t : List A) → first p t ≡ some a → p a ≡ true
  first_sound p a [] h = cc
  first_sound p a (b ∷ t) h = ground (arith, first_sound p a t)

  pub any-first : (p : A → Bool) (t : List A) → any p t ≡ false → first p t ≡ none
  any-first p [] h = refl
  any-first p (a ∷ t) h = ground (arith, any-first p t)

  -- The rows after a write of one over the rows with its id.
  abbrev pub put : A → List A → List A
  put a t = map (λ b. if at (id a) b then a else b) t

  pub any-put : (i : Uuid) (a : A) (t : List A) → any (at i) (put a t) ≡ any (at i) t
  any-put i a [] = refl
  any-put i a (b ∷ t) = ground (arith, any-put i a t)

  pub Distinct-put : (a : A) (t : List A) → Distinct t → Distinct (put a t)
  Distinct-put a [] d = tt
  Distinct-put a (b ∷ t) (fresh, d) =
      ground (arith, Distinct-put a t d, any-put (id b) a t, any-put (id a) a t)

  pub first-put_other :
      (i : Uuid) (p : A → Bool) (a : A) (t : List A)
      → Pins i p
      → (id a == i) ≡ false
      → first p (put a t) ≡ first p t
  first-put_other i p a [] pins h = refl
  first-put_other i p a (b ∷ t) pins h =
      ground (arith, first-put_other i p a t pins h, pins a, pins b)

  pub first-put_same :
      (p : A → Bool) (a : A) (t : List A)
      → Pins (id a) p
      → any (at (id a)) t ≡ true
      → p a ≡ true
      → first p (put a t) ≡ some a
  first-put_same p a [] pins h k = cc
  first-put_same p a (b ∷ t) pins h k = ground (arith, first-put_same p a t pins, pins b)

  pub first-put_hidden :
      (p : A → Bool) (a : A) (t : List A) → Pins (id a) p → p a ≡ false → first p (put a t) ≡ none
  first-put_hidden p a [] pins k = refl
  first-put_hidden p a (b ∷ t) pins k = ground (arith, first-put_hidden p a t pins k, pins b)

  pub any-first_pinned :
      (i : Uuid) (p : A → Bool) (a : A) (t : List A)
      → Pins i p
      → first p t ≡ some a
      → any (at i) t ≡ true
  any-first_pinned i p a [] pins h = cc
  any-first_pinned i p a (b ∷ t) pins h = ground (arith, any-first_pinned i p a t pins, pins b)

  -- What holds of no row does not hold of the one that is found.
  pub first-none_other :
      (p q : A → Bool) (a : A) (t : List A) → first p t ≡ some a → any q t ≡ false → q a ≡ false
  first-none_other p q a [] h k = cc
  first-none_other p q a (b ∷ t) h k = ground (arith, first-none_other p q a t)

  pub any-put_row :
      (q : A → Bool) (a : A) (t : List A)
      → any (at (id a)) t ≡ true
      → q a ≡ true
      → any q (put a t) ≡ true
  any-put_row q a [] h k = cc
  any-put_row q a (b ∷ t) h k = ground (arith, any-put_row q a t)
