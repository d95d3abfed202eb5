-- ===== src/Projects/Listing.antt =====
-- The pages of `ProjectService.list`, read one after the other.
use task_mgt_app.Base.{
  ℕ, ◌≤◌, ◌≡◌, sym, subst, ap, ◌&&◌, ◌==◌, is_none, ◌∙◌, Bool, List, length, filter,
}
use task_mgt_app.Entity.{Uuid}
use task_mgt_app.Pagination.{max_page_size}
use task_mgt_app.Pagination.Listing.{nth_page, read_pages, pages_of, read_pages_all, ordered}
use task_mgt_app.Projects.Model.{Project}
use task_mgt_app.Projects.Repository.{is_listed, list_for_owner}
use task_mgt_app.Repository.{active}
use task_mgt_app.Sql.{Sql, Untied, IsDescending}

module _ (sql : Sql) (o : Uuid) (t : List Project) where
  abbrev rows : List Project
  rows = sql.select (is_listed sql o) t

  -- The live projects of the user.
  abbrev pub is_own : Project → Bool
  is_own p = is_none p.deleted_at && p.owner_id == o

  abbrev age_of : Project → ℕ
  age_of p = p.created_at

  rows_lem : rows ≡ filter is_own t
  unfolding is_listed active
  rows_lem = sql.select_lem is_own t

  abbrev pub all_pages : (size : ℕ) → 1 ≤ size → size ≤ max_page_size → List Project
  all_pages size ge le =
      read_pages (λ p. (list_for_owner sql o p t).0) size ge le
        (pages_of (λ p. list_for_owner sql o p t) (nth_page size ge le 0))

  all_pages_lem :
      (size : ℕ) (ge : 1 ≤ size) (le : size ≤ max_page_size)
      → Untied age_of rows
      → all_pages size ge le ≡ ordered sql age_of rows
  unfolding list_for_owner
  all_pages_lem size ge le untied = read_pages_all sql age_of rows untied size ge le

  -- Let no two live projects of a user have the same `created_at`. The user reads the pages 1 to
  -- `total_pages` of `list_for_owner` of projects, for any page size that is allowed. The projects
  -- read are in descending order of `created_at`, and every test on projects holds of as many of
  -- them as of the live projects of the user: each such project is read as often as the table has
  -- it, and no other.
  pub listed :
      (size : ℕ) (ge : 1 ≤ size) (le : size ≤ max_page_size) (q : Project → Bool)
      → Untied age_of (filter is_own t)
      → IsDescending age_of (all_pages size ge le)
        × (length (filter q (all_pages size ge le)) ≡ length (filter q (filter is_own t)))
  listed size ge le q untied =
      let untied_rows = subst (Untied age_of) (sym rows_lem) untied in
      rw (all_pages_lem size ge le untied_rows) (
        sql.order_by_desc-IsDescending 0 0 age_of rows,
        sql.order_by_desc-same 0 0 age_of rows q ∙ ap (λ l. length (filter q l)) rows_lem,
      )
