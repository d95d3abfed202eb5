-- ===== src/Pagination/Listing.antt =====
-- The pages of an ordered statement, read one after the other.
use task_mgt_app.Base.{
  ℕ, zero, suc, ◌≤◌, ◌≡◌, refl, sym, ap, ◌∙◌, true, List, [], arith, length, append, map-append,
  filter_all, map, take, drop, ◌-◌, ◌*◌,
}
use task_mgt_app.Entity.{Instant}
use task_mgt_app.Pagination.{PageParams, offset, limit, total_pages, max_page_size}
use task_mgt_app.Pagination.Pages.{first_pages, pages_cover, slice}
use task_mgt_app.Sql.{Sql, Untied}

-- The parameters of the page with a number.
abbrev pub nth_page : (size : ℕ) → 1 ≤ size → size ≤ max_page_size → ℕ → PageParams
nth_page size ge le n = record {
  page = suc n;
  page_size = size;
  page_ge = omega arith;
  size_ge = ge;
  size_le = le;
}

-- A reader that asks for the pages 1, …, n of a listing, one after the other.
abbrev pub read_pages :
    {A : Type 0} → (PageParams → List A) → (size : ℕ) → 1 ≤ size → size ≤ max_page_size → ℕ → List A
read_pages list size ge le zero = []
read_pages list size ge le (suc n) =
    append (read_pages list size ge le n) (list (nth_page size ge le n))

-- How many pages a page of a listing says that there are.
abbrev pub pages_of : {A : Type 0} → (PageParams → List A × ℕ) → PageParams → ℕ
pages_of list p =
    let (items, total) = list p in
    total_pages (record { items = items; total = total; page = p.page; page_size = p.page_size })

pub read_pages-map :
    {A B : Type 0} (f : A → B) (list : PageParams → List A) (size : ℕ) (ge : 1 ≤ size)
    (le : size ≤ max_page_size) (n : ℕ)
    → read_pages (λ p. map f (list p)) size ge le n ≡ map f (read_pages list size ge le n)
read_pages-map f list size ge le zero = refl
read_pages-map f list size ge le (suc n) =
    rw (read_pages-map f list size ge le n) (sym (map-append f (read_pages list size ge le n) _))

module _ (sql : Sql) {A : Type 0} (key : A → Instant) (l : List A) where
  -- The rows in the order of a statement without a page.
  abbrev pub ordered : List A
  ordered = sql.order_by_desc 0 0 key l

  abbrev pub page_items : PageParams → List A
  page_items p = sql.page (offset p) (limit p) (sql.order_by_desc (offset p) (limit p) key l)

  length-ordered : length ordered ≡ length l
  length-ordered =
      sym (ap length (filter_all ordered))
      ∙ sql.order_by_desc-same 0 0 key l (λ _. true)
      ∙ ap length (filter_all l)

  module _ (untied : Untied key l) where
    page_items_lem : (p : PageParams) → page_items p ≡ slice p.page p.page_size ordered
    unfolding offset limit
    page_items_lem p =
        sql.page_lem _ _ _
        ∙ ap (λ x. take p.page_size (drop ((p.page - 1) * p.page_size) x))
            (sql.order_by_desc-untied _ _ 0 0 key l untied)

    module _ (size : ℕ) (ge : 1 ≤ size) (le : size ≤ max_page_size) where
      read_pages_lem : (n : ℕ) → read_pages page_items size ge le n ≡ first_pages n size ordered
      read_pages_lem zero = refl
      read_pages_lem (suc n) = rw (read_pages_lem n, page_items_lem)

      pub read_pages_all :
          read_pages page_items size ge le
            (pages_of (λ p. (page_items p, sql.count l)) (nth_page size ge le 0))
          ≡ ordered
      read_pages_all =
          read_pages_lem (pages_of (λ p. (page_items p, sql.count l)) (nth_page size ge le 0))
          ∙ ap (λ n. first_pages n size ordered) same_pages
          ∙ pages_cover ordered (nth_page size ge le 0)
        where
          same_pages :
              pages_of (λ p. (page_items p, sql.count l)) (nth_page size ge le 0)
              ≡ total_pages (record {
                items = slice 1 size ordered;
                total = length ordered;
                page = 1;
                page_size = size;
              })
          same_pages =
              rw (sql.count_lem l, length-ordered)
                (ap
                  (λ items.
                    total_pages
                      (record { items = items; total = length l; page = 1; page_size = size }))
                  (page_items_lem (nth_page size ge le 0)))
