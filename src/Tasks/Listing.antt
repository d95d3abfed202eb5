-- ===== src/Tasks/Listing.antt =====
-- The pages of `TaskService.list`, read one after the other.
use task_mgt_app.Base.{
  ℕ, ◌≤◌, String, ◌≡◌, refl, sym, ap, ◌∙◌, Bool, ◌&&◌, List, [], ◌∷◌, length, map, filter,
  filter-ext, arith, is_none, any, subst, ◌==◌,
}
use task_mgt_app.Entity.{Uuid}
use task_mgt_app.Pagination.{total_pages, max_page_size}
use task_mgt_app.Pagination.Listing.{
  nth_page, read_pages, pages_of, read_pages_all, read_pages-map, page_items, ordered,
}
use task_mgt_app.Projects.Model.{Project}
use task_mgt_app.Projects.Ownership as Projects
use task_mgt_app.Repository.{active}
use task_mgt_app.Repository.Lookup.{Distinct}
use task_mgt_app.Sql.{Sql, IsDescending, Untied, pairs}
use task_mgt_app.Tasks.Filters.{is_wanted, wanted_lem}
use task_mgt_app.Tasks.Join.{has_owner, joins, row_passes, rows_lem}
use task_mgt_app.Tasks.Model.{Task}
use task_mgt_app.Tasks.Repository.{TaskFilters, is_listed, passes, on_project, list_for_owner}

-- Counting the images of a list's items.
length-filter-map :
    {A B : Type 0} (f : A → B) (q : B → Bool) (l : List A)
    → length (filter q (map f l)) ≡ length (filter (λ a. q (f a)) l)
length-filter-map f q [] = refl
length-filter-map f q (a ∷ l) = ground (arith, length-filter-map f q l)

-- An order by a key of the image.
IsDescending-map :
    {A B : Type 0} (f : A → B) (key : B → ℕ) (l : List A)
    → IsDescending (λ a. key (f a)) l
    → IsDescending key (map f l)
IsDescending-map f key [] h = tt
IsDescending-map f key (a ∷ []) h = tt
IsDescending-map f key (a ∷ b ∷ l) (first, rest) = (first, IsDescending-map f key (b ∷ l) rest)

-- Rows and their images have the same keys.
any-map :
    {A B : Type 0} (f : A → B) (p : B → Bool) (l : List A) → any p (map f l) ≡ any (λ a. p (f a)) l
any-map f p [] = refl
any-map f p (a ∷ l) = rw (any-map f p l)

Untied-map :
    {A B : Type 0} (f : A → B) (key : B → ℕ) (l : List A)
    → Untied key (map f l)
    → Untied (λ a. key (f a)) l
Untied-map f key [] h = tt
Untied-map f key (a ∷ l) (fresh, rest) =
    (sym (any-map f (λ b. key b == key (f a)) l) ∙ fresh, Untied-map f key l rest)

module _ (sql : Sql) (ilike : String → String → Bool) (o : Uuid) (filters : TaskFilters)
    (ts : List Task) (ps : List Project) where
  -- What the task of a row must meet.
  abbrev keep : Task → Bool
  keep t = is_none t.deleted_at && passes sql ilike filters t

  abbrev row_listed : Task × Project → Bool
  row_listed r = is_listed sql ilike o r && passes sql ilike filters r.0

  abbrev rows : List (Task × Project)
  rows = sql.select row_listed (sql.join (on_project sql ilike) ts ps)

  abbrev age_of : Task → ℕ
  age_of t = t.created_at

  abbrev row_age : Task × Project → ℕ
  row_age r = r.0.created_at

  -- The tasks that the listing is about: those that are asked for, in a live project of the user.
  abbrev pub is_match : Task → Bool
  is_match t = is_wanted ilike filters t && has_owner o ps t

  row_listed_lem : (r : Task × Project) → row_listed r ≡ row_passes o keep r
  unfolding is_listed active
  row_listed_lem r = ground arith

  join_lem : sql.join (on_project sql ilike) ts ps ≡ pairs joins ts ps
  unfolding on_project
  join_lem = sql.join_lem joins ts ps

  rows_matches : Distinct Projects.id_of ps → map (λ r. r.0) rows ≡ filter is_match ts
  rows_matches d =
      ap (map (λ r. r.0)) (
        sql.select_lem row_listed _
        ∙ ap (filter row_listed) join_lem
        ∙ filter-ext row_listed (row_passes o keep) (pairs joins ts ps) row_listed_lem)
      ∙ rows_lem o keep ts ps d
      ∙ filter-ext (λ t. keep t && has_owner o ps t) is_match ts
          (λ t. ap (λ b. b && has_owner o ps t) (wanted_lem ilike sql filters t))

  abbrev pub all_pages : (size : ℕ) → 1 ≤ size → size ≤ max_page_size → List Task
  all_pages size ge le =
      read_pages (λ p. (list_for_owner sql ilike o filters p ts ps).0) size ge le
        (pages_of (λ p. list_for_owner sql ilike o filters p ts ps) (nth_page size ge le 0))

  all_pages_lem :
      (size : ℕ) (ge : 1 ≤ size) (le : size ≤ max_page_size)
      → Untied row_age rows
      → all_pages size ge le ≡ map (λ r. r.0) (ordered sql row_age rows)
  unfolding list_for_owner total_pages
  all_pages_lem size ge le untied =
      read_pages-map (λ r. r.0) (page_items sql row_age rows) size ge le
        (pages_of (λ p. (page_items sql row_age rows p, sql.count rows)) (nth_page size ge le 0))
      ∙ ap (map (λ r. r.0)) (read_pages_all sql row_age rows untied size ge le)

  -- Let every project id stand once in the table, and let no two live tasks that pass some filters
  -- and stand in a live project of a user have the same `created_at`. The user reads the pages 1 to
  -- `total_pages` of `list_for_owner` of tasks with these filters, for any page size that is
  -- allowed. The tasks read are in descending order of `created_at`, and every test on tasks holds
  -- of as many of them as of those live tasks: each is read as often as the table has it, and no
  -- other. A filter that is not set lets every task pass, and so does an empty search text; another
  -- text must match the title or the description.
  pub tasks_listed :
      (size : ℕ) (ge : 1 ≤ size) (le : size ≤ max_page_size) (q : Task → Bool)
      → Distinct Projects.id_of ps
      → Untied age_of (filter is_match ts)
      → IsDescending age_of (all_pages size ge le)
        × (length (filter q (all_pages size ge le)) ≡ length (filter q (filter is_match ts)))
  tasks_listed size ge le q d untied =
      let untied_rows =
        Untied-map (λ r. r.0) age_of rows (subst (Untied age_of) (sym (rows_matches d)) untied) in
      rw (all_pages_lem size ge le untied_rows) (
        IsDescending-map (λ r. r.0) age_of (ordered sql row_age rows)
            (sql.order_by_desc-IsDescending 0 0 row_age rows),
        length-filter-map (λ r. r.0) q (ordered sql row_age rows)
            ∙ sql.order_by_desc-same 0 0 row_age rows (λ r. q r.0)
            ∙ sym (length-filter-map (λ r. r.0) q rows)
            ∙ ap (λ l. length (filter q l)) (rows_matches d),
      )
