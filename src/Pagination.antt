-- ===== src/Pagination.antt =====
-- app/common/pagination.py: the parameters of a page, and how many pages there are.
pub mod Pages
pub mod Listing
use task_mgt_app.Base.{ℕ, ◌+◌, ◌-◌, ◌*◌, ◌/◌, ◌≤◌, List, ◌==◌, if◌then◌else◌}

abbrev pub max_page_size : ℕ
max_page_size = 100

-- `PageParams`, with the bounds of its fields.
pub record PageParams : Type 0 where
  pub page : ℕ
  pub page_size : ℕ
  pub page_ge : 1 ≤ page
  pub size_ge : 1 ≤ page_size
  pub size_le : page_size ≤ max_page_size

unfoldable pub offset : PageParams → ℕ
offset p = (p.page - 1) * p.page_size

unfoldable pub limit : PageParams → ℕ
limit p = p.page_size

pub record Page {ℓ} (A : Type ℓ) : Type ℓ where
  pub items : List A
  pub total : ℕ
  pub page : ℕ
  pub page_size : ℕ

unfoldable pub total_pages {ℓ} : {A : Type ℓ} → Page A → ℕ
total_pages p = if p.page_size == 0 then 0 else (p.total + p.page_size - 1) / p.page_size
