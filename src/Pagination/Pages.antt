-- ===== src/Pagination/Pages.antt =====
-- The slices of a list that the pages of app/common/pagination.py are.
use native.Mathlib.Nat.{mod-lt}
use native.Mathlib.Omega.{div_any}
use task_mgt_app.Base.{
  ℕ, zero, suc, false, ◌+◌, ◌-◌, ◌*◌, ◌/◌, ◌≤◌, ◌<◌, ◌≡◌, refl, ap, ◌∙◌, List, [], ◌∷◌, arith,
  length, take, drop, append, ◌==◌,
}
use task_mgt_app.Pagination.{PageParams, total_pages}

module _ {ℓ} {A : Type ℓ} where
  -- What `.offset(…).limit(…)` leaves of a list.
  abbrev pub slice : ℕ → ℕ → List A → List A
  slice page size xs = take size (drop ((page - 1) * size) xs)

  -- The items of the pages 1, …, n, one after the other.
  abbrev pub first_pages : ℕ → ℕ → List A → List A
  first_pages zero size xs = []
  first_pages (suc n) size xs = append (first_pages n size xs) (slice (suc n) size xs)

  take-add : (m n : ℕ) (xs : List A) → append (take m xs) (take n (drop m xs)) ≡ take (m + n) xs
  take-add zero n xs = let e : 0 + n ≡ n = omega arith in rw e
  take-add (suc m) zero [] = let e : suc m + 0 ≡ suc m = omega arith in rw e
  take-add (suc m) (suc n) [] = let e : suc m + suc n ≡ suc (m + suc n) = omega arith in rw e
  take-add (suc m) n (x ∷ xs) =
      let e : suc m + n ≡ suc (m + n) = omega arith in rw e (ap (λ l. x ∷ l) (take-add m n xs))

  take_all : (n : ℕ) (xs : List A) → length xs ≤ n → take n xs ≡ xs
  take_all zero [] h = refl
  take_all zero (x ∷ xs) h = absurd (omega arith)
  take_all (suc n) [] h = refl
  take_all (suc n) (x ∷ xs) h = ap (λ l. x ∷ l) (take_all n xs (omega arith))

  first_pages_lem : (n size : ℕ) (xs : List A) → first_pages n size xs ≡ take (n * size) xs
  first_pages_lem zero size xs = let e : 0 * size ≡ 0 = omega arith in rw e
  first_pages_lem (suc n) size xs =
      let e : suc n * size ≡ n * size + size = omega arith in
      let f : suc n - 1 ≡ n = omega arith in
      rw (e, f, first_pages_lem n size xs) (take-add (n * size) size xs)

-- The number of pages times the page size: at least the total, by less than one page.
total_pages_bounds :
    (total size : ℕ)
    → 1 ≤ size
    → (total ≤ (total + size - 1) / size * size) × ((total + size - 1) / size * size < total + size)
total_pages_bounds total size h =
    let whole = div_any (total + size - 1) size in
    let part = mod-lt (total + size - 1) {m = size} (omega arith) in
    let swap : size * ((total + size - 1) / size) ≡ (total + size - 1) / size * size =
      omega arith in
    (omega arith, omega arith)

-- For parameters within their bounds, the slices of the pages 1 to `total_pages` of a list, put one
-- after the other, are the list.
pub pages_cover {ℓ} :
    {A : Type ℓ} (xs : List A) (p : PageParams)
    → first_pages
        (total_pages (record {
          items = slice p.page p.page_size xs;
          total = length xs;
          page = p.page;
          page_size = p.page_size;
        }))
        p.page_size
        xs
      ≡ xs
unfolding total_pages
pages_cover xs p =
    let some_size : (p.page_size == 0) ≡ false = let h = p.size_ge in ground arith in
    rw some_size (
      first_pages_lem _ p.page_size xs
      ∙ take_all _ xs (total_pages_bounds (length xs) p.page_size p.size_ge).0)
