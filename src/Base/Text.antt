-- ===== src/Base/Text.antt =====
-- Comparison of whole texts, and when two texts with different prefixes differ.
use Prim.Native.Char.{code}
use Prim.Native.Nat.{ℕ, zero, suc}
use Prim.Native.String.{String, ◌++◌}
use Prim.Native.String.append
use mathlib.Core.Path.{◌≡◌, refl, sym, ap, ◌∙◌}
use mathlib.Core.Logic.{◌≢◌, ◌↔◌, inl, inr}
use mathlib.Core.Bool.{Bool, true, false, not, ◌&&◌}
use native.Mathlib.Omega.{arith}
use text.Mathlib.Text.{◌==◌ as text_eq}
use text.Mathlib.TextEquality.{eq_iff as text_eq_iff}
use text.Mathlib.TextPositions.{eq_refl}
use text.Mathlib.TextLemmas.{append_cancel_left}
use task_mgt_app.Base.Tests.{Bool-cases, ◌==◌}

-- `==` on texts, under a name that leaves `==` to the numbers.
abbrev pub str_eq : String → String → Bool
str_eq s t = text_eq s t

pub str_eq_iff : (s t : String) → (str_eq s t ≡ true) ↔ (s ≡ t)
str_eq_iff s t = text_eq_iff s t

pub str_eq_refl : (s : String) → str_eq s s ≡ true
str_eq_refl s = eq_refl s

pub str_eq_ne : (s t : String) → s ≢ t → str_eq s t ≡ false
str_eq_ne s t h = elim (Bool-cases (str_eq s t)) [
  | inl same ↦ absurd (h ((str_eq_iff s t).0 same))
  | inr other ↦ other
]

-- The code point at a position, 0 past the end.
abbrev pub code_at : ℕ → String → ℕ
code_at n String.[] = 0
code_at zero (String.◌∷◌ c s) = code c
code_at (suc n) (String.◌∷◌ c s) = code_at n s

code_at-append : (n : ℕ) (p s : String) → code_at n p ≢ 0 → code_at n (p ++ s) ≡ code_at n p
code_at-append n String.[] s h = absurd (h refl)
code_at-append zero (String.◌∷◌ c p) s h = rw append.cons
code_at-append (suc n) (String.◌∷◌ c p) s h = rw append.cons (code_at-append n p s h)

-- Whether two texts differ at a position that both of them have.
abbrev pub differ_at : ℕ → String → String → Bool
differ_at n p q =
    not (code_at n p == 0) && (not (code_at n q == 0) && not (code_at n p == code_at n q))

differ_at-ne :
    (n : ℕ) (p q : String)
    → differ_at n p q ≡ true
    → (code_at n p ≢ 0) × (code_at n q ≢ 0) × (code_at n p ≢ code_at n q)
differ_at-ne n p q h = ground arith

-- Texts with prefixes that differ at some position differ.
pub append-ne :
    (n : ℕ) (p q s t : String) → differ_at n p q ≡ true → str_eq (p ++ s) (q ++ t) ≡ false
append-ne n p q s t h =
    let d = differ_at-ne n p q h in
    str_eq_ne _ _
      λ e. d.2 (sym (code_at-append n p s d.0) ∙ ap (code_at n) e ∙ code_at-append n q t d.1)

-- A common prefix does not count.
pub str_eq-append : (p s t : String) → str_eq (p ++ s) (p ++ t) ≡ str_eq s t
str_eq-append p s t = elim (Bool-cases (str_eq s t)) [
  | inl same ↦
      (let e = (str_eq_iff s t).0 same in rw e (str_eq_refl (p ++ t) ∙ sym (str_eq_refl t)))
  | inr other ↦
      str_eq_ne (p ++ s) (p ++ t)
        (λ e. cc (other, (str_eq_iff s t).1 (sym (append_cancel_left p t s (sym e)))))
      ∙ sym other
]
