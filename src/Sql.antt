-- ===== src/Sql.antt =====
-- What the repositories use of SQLAlchemy and PostgreSQL: a SELECT with its WHERE clause, a join,
-- the ordered page of a result, its count, an INSERT and an UPDATE, as operations on a table that
-- is a list of rows. The laws are what the two document.
use task_mgt_app.Base.{
  ℕ, ◌≤◌, ◌≡◌, ◌==◌, any, false, Bool, Option, none, some, List, [], ◌∷◌, map, length, take, drop,
  filter, append, if◌then◌else◌,
}
use task_mgt_app.Entity.{Instant}
use task_mgt_app.Errors.{Result, ok, err, integrity_error, multiple_results_found}

-- What `scalar_one_or_none` makes of the rows of a result.
abbrev pub one_of : {A : Type 0} → List A → Result (Option A)
one_of [] = ok none
one_of (a ∷ []) = ok (some a)
one_of (a ∷ b ∷ _) = err multiple_results_found

-- The rows of `A JOIN B ON on`.
abbrev pub pairs : {A B : Type 0} → (A → B → Bool) → List A → List B → List (A × B)
pairs on [] t = []
pairs on (a ∷ s) t = append (map (λ b. (a, b)) (filter (on a) t)) (pairs on s t)

-- The newest first.
abbrev pub IsDescending : {A : Type 0} → (A → Instant) → List A → Type 0
IsDescending key [] = Unit
IsDescending key (a ∷ []) = Unit
IsDescending key (a ∷ b ∷ l) = (key b ≤ key a) × IsDescending key (b ∷ l)

-- No two items have the same key.
abbrev pub Untied : {A : Type 0} → (A → Instant) → List A → Type 0
Untied key [] = Unit
Untied key (a ∷ l) = (any (λ b. key b == key a) l ≡ false) × Untied key l

pub record Sql : Type 1 where
  -- the rows of a table, or of a join, that meet a condition
  pub select : {A : Type 0} → (A → Bool) → List A → List A
  pub select_lem : {A : Type 0} (p : A → Bool) (t : List A) → select p t ≡ filter p t
  pub join : {A B : Type 0} → (A → B → Bool) → List A → List B → List (A × B)
  pub join_lem :
      {A B : Type 0} (on : A → B → Bool) (s : List A) (t : List B) → join on s t ≡ pairs on s t
  pub scalar_one_or_none : {A : Type 0} → List A → Result (Option A)
  pub scalar_one_or_none_lem : {A : Type 0} (l : List A) → scalar_one_or_none l ≡ one_of l
  pub count : {A : Type 0} → List A → ℕ
  pub count_lem : {A : Type 0} (l : List A) → count l ≡ length l
  -- `.order_by(key.desc())` of a statement with an OFFSET and a LIMIT, which the planner knows: the
  -- same rows, as often, in some order that fits the key. Two statements may order rows with the
  -- same key differently, and agree where no two rows have the same key.
  pub order_by_desc : {A : Type 0} → (offset limit : ℕ) → (A → Instant) → List A → List A
  pub order_by_desc-IsDescending :
      {A : Type 0} (offset limit : ℕ) (key : A → Instant) (l : List A)
      → IsDescending key (order_by_desc offset limit key l)
  pub order_by_desc-same :
      {A : Type 0} (offset limit : ℕ) (key : A → Instant) (l : List A) (q : A → Bool)
      → length (filter q (order_by_desc offset limit key l)) ≡ length (filter q l)
  pub order_by_desc-untied :
      {A : Type 0} (offset limit offset' limit' : ℕ) (key : A → Instant) (l : List A)
      → Untied key l
      → order_by_desc offset limit key l ≡ order_by_desc offset' limit' key l
  -- `.offset(…).limit(…)`
  pub page : {A : Type 0} → ℕ → ℕ → List A → List A
  pub page_lem :
      {A : Type 0} (offset limit : ℕ) (l : List A)
      → page offset limit l ≡ take limit (drop offset l)
  -- a flush of a new row, given whether the constraints of the table accept it
  pub insert : {A : Type 0} → Bool → A → List A → Result A × List A
  pub insert_lem :
      {A : Type 0} (accepted : Bool) (a : A) (t : List A)
      → insert accepted a t ≡ (if accepted then (ok a, a ∷ t) else (err integrity_error, t))
  -- `UPDATE … WHERE p`
  pub update : {A : Type 0} → (A → Bool) → (A → A) → List A → List A
  pub update_lem :
      {A : Type 0} (p : A → Bool) (f : A → A) (t : List A)
      → update p f t ≡ map (λ a. if p a then f a else a) t
