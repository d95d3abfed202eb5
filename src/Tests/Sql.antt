-- ===== src/Tests/Sql.antt =====
-- A SQL engine on lists, for the examples: the order is an insertion sort.
use task_mgt_app.Base.{
  ◌≡◌, refl, ◌∙◌, Bool, List, [], ◌∷◌, map, arith, leb, length, take, drop, filter, if◌then◌else◌,
}
use task_mgt_app.Entity.{Instant}
use task_mgt_app.Errors.{ok, err, integrity_error}
use task_mgt_app.Sql.{Sql, one_of, pairs, IsDescending}

module _ {A : Type 0} (key : A → Instant) where
  abbrev insert : A → List A → List A
  insert a [] = a ∷ []
  insert a (b ∷ l) = let rest = insert a l in if leb (key b) (key a) then a ∷ b ∷ l else b ∷ rest

  abbrev sort : List A → List A
  sort [] = []
  sort (a ∷ l) = insert a (sort l)

  insert-same :
      (q : A → Bool) (a : A) (l : List A)
      → length (filter q (insert a l)) ≡ length (filter q (a ∷ l))
  insert-same q a [] = refl
  insert-same q a (b ∷ l) = ground (arith, insert-same q a l)

  pub sort-same : (l : List A) (q : A → Bool) → length (filter q (sort l)) ≡ length (filter q l)
  sort-same [] q = refl
  sort-same (a ∷ l) q = insert-same q a (sort l) ∙ ground (arith, sort-same l q)

  insert-IsDescending : (a : A) (l : List A) → IsDescending key l → IsDescending key (insert a l)
  insert-IsDescending a [] h = tt
  insert-IsDescending a (b ∷ []) h = ground arith
  insert-IsDescending a (b ∷ c ∷ l) (first, rest) =
      ground (arith, insert-IsDescending a (c ∷ l) rest)

  pub sort-IsDescending : (l : List A) → IsDescending key (sort l)
  sort-IsDescending [] = tt
  sort-IsDescending (a ∷ l) = insert-IsDescending a (sort l) (sort-IsDescending l)

abbrev pub sql : Sql
sql = record {
  select = filter;
  select_lem = λ p t. refl;
  join = pairs;
  join_lem = λ on s t. refl;
  scalar_one_or_none = one_of;
  scalar_one_or_none_lem = λ l. refl;
  count = length;
  count_lem = λ l. refl;
  order_by_desc = λ offset limit key l. sort key l;
  order_by_desc-IsDescending = λ offset limit key l. sort-IsDescending key l;
  order_by_desc-same = λ offset limit key l q. sort-same key l q;
  order_by_desc-untied = λ offset limit offset' limit' key l h. refl;
  page = λ offset limit l. take limit (drop offset l);
  page_lem = λ offset limit l. refl;
  insert = λ accepted a t. if accepted then (ok a, a ∷ t) else (err integrity_error, t);
  insert_lem = λ accepted a t. refl;
  update = λ p f t. map (λ a. if p a then f a else a) t;
  update_lem = λ p f t. refl;
}
