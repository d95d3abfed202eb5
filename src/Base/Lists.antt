-- ===== src/Base/Lists.antt =====
-- Lists measured and cut by native numbers, and Boolean filtering.
use Prim.Native.Nat.{ℕ, zero, suc}
use mathlib.Core.Bool.{Bool, true, false, ◌||◌}
use mathlib.Core.List.{List, [], ◌∷◌}
use mathlib.Core.List.{map}
use mathlib.Core.Path.{◌≡◌, refl, ap}
use native.Mathlib.Omega.{arith}
use task_mgt_app.Base.Tests.{if◌then◌else◌}

module _ {ℓ} {A : Type ℓ} where
  abbrev pub length : List A → ℕ
  length [] = 0
  length (x ∷ xs) = suc (length xs)

  abbrev pub take : ℕ → List A → List A
  take zero xs = []
  take (suc n) [] = []
  take (suc n) (x ∷ xs) = x ∷ take n xs

  abbrev pub drop : ℕ → List A → List A
  drop zero xs = xs
  drop (suc n) [] = []
  drop (suc n) (x ∷ xs) = drop n xs

  abbrev pub filter : (A → Bool) → List A → List A
  filter p [] = []
  filter p (x ∷ xs) = let rest = filter p xs in if p x then x ∷ rest else rest

  abbrev pub any : (A → Bool) → List A → Bool
  any p [] = false
  any p (x ∷ xs) = p x || any p xs

  abbrev pub append : List A → List A → List A
  append [] ys = ys
  append (x ∷ xs) ys = x ∷ append xs ys

  pub filter-append :
      (p : A → Bool) (xs ys : List A) → filter p (append xs ys) ≡ append (filter p xs) (filter p ys)
  filter-append p [] ys = refl
  filter-append p (x ∷ xs) ys = ground (arith, filter-append p xs ys)

  pub filter-ext : (p q : A → Bool) (l : List A) → ((a : A) → p a ≡ q a) → filter p l ≡ filter q l
  filter-ext p q [] h = refl
  filter-ext p q (a ∷ l) h = rw (h a, filter-ext p q l h)

  pub filter_all : (l : List A) → filter (λ _. true) l ≡ l
  filter_all [] = refl
  filter_all (a ∷ l) = ap (λ m. a ∷ m) (filter_all l)

pub map-append {ℓ ℓ'} :
    {A : Type ℓ} {B : Type ℓ'} (f : A → B) (xs ys : List A)
    → map f (append xs ys) ≡ append (map f xs) (map f ys)
map-append f [] ys = refl
map-append f (x ∷ xs) ys = ap (λ l. f x ∷ l) (map-append f xs ys)
