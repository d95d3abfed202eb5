-- ===== src/Http/Passwords.antt =====
-- The rules for a new password of app/auth/schemas.py, on the code points of the text.
use task_mgt_app.Base.{
  ℕ, String, ◌≡◌, Bool, true, false, not, ◌&&◌, ◌||◌, List, [], ◌∷◌, arith, leb, inl, inr, ◌⊎◌,
  if◌then◌else◌,
}
use Prim.Native.Char.{code}

-- `re.compile(…).search` for a class of characters.
abbrev pub search : (ℕ → Bool) → String → Bool
search p String.[] = false
search p (String.◌∷◌ c s) = p (code c) || search p s

abbrev pub is_upper : ℕ → Bool
is_upper c = leb 65 c && leb c 90

abbrev pub is_lower : ℕ → Bool
is_lower c = leb 97 c && leb c 122

abbrev pub is_digit : ℕ → Bool
is_digit c = leb 48 c && leb c 57

-- `[^A-Za-z0-9]`
abbrev pub is_special : ℕ → Bool
is_special c = not (is_upper c || (is_lower c || is_digit c))

-- `_PASSWORD_RULES`
abbrev pub password_rules : List ((ℕ → Bool) × String)
password_rules =
    (is_upper, "one uppercase letter")
    ∷ (is_lower, "one lowercase letter")
    ∷ (is_digit, "one digit")
    ∷ (is_special, "one special character")
    ∷ []

-- The comprehension `missing`.
unfoldable pub missing : List ((ℕ → Bool) × String) → String → List String
missing [] value = []
missing ((pattern, description) ∷ rules) value =
    let rest = missing rules value in if search pattern value then rest else description ∷ rest

abbrev pub verdict_of_rules : List String → String → List String ⊎ String
verdict_of_rules [] value = inr value
verdict_of_rules (m ∷ more) value = inl (m ∷ more)

-- `_validate_password_strength`, with the descriptions that its `ValueError` joins on the left.
unfoldable pub validate_password_strength : String → List String ⊎ String
validate_password_strength value = verdict_of_rules (missing password_rules value) value

abbrev pub is_accepted : List String ⊎ String → Bool
is_accepted (inl _) = false
is_accepted (inr _) = true

-- The strength check accepts a password exactly if it has a capital letter, a small letter and a
-- digit of ASCII, and a character that is none of these.
strong :
    (value : String)
    → is_accepted (validate_password_strength value) ≡ (
        search is_upper value
        && (search is_lower value && (search is_digit value && search is_special value)))
unfolding validate_password_strength missing
strong value = ground arith
