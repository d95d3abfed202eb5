-- ===== src/Tests/Codec.antt =====
-- A reversible text form of token payloads, for the examples: what `jwt.encode` and `jwt.decode`
-- are taken to be there.
use Prim.Native.Char.{Char, code}
use mathlib.Core.Option
use task_mgt_app.Base.{
  ℕ, zero, suc, ◌≤◌, String, ◌≡◌, refl, Option, none, some, [], ◌∷◌, arith, ◌==◌, if◌then◌else◌,
  length,
}
use task_mgt_app.Base.Dict.{Dict}
use task_mgt_app.Libraries.{Claim, text, time}

abbrev more : Char
more = "x"

abbrev stop : Char
stop = "e"

write_text : String → String → String
write_text String.[] r = String.◌∷◌ stop r
write_text (String.◌∷◌ c s) r = String.◌∷◌ more (String.◌∷◌ c (write_text s r))

abbrev push : Char → Option (String × String) → Option (String × String)
push c none = none
push c (some (s, r)) = some (String.◌∷◌ c s, r)

read_text : String → Option (String × String)
read_text String.[] = none
read_text (String.◌∷◌ c String.[]) = some (String.[], String.[])
read_text (String.◌∷◌ c (String.◌∷◌ d s)) =
    if code c == code more then push d (read_text s) else some (String.[], String.◌∷◌ d s)

read-write_text : (s r : String) → read_text (write_text s r) ≡ some (s, r)
unfolding read_text write_text
read-write_text String.[] String.[] = refl
read-write_text String.[] (String.◌∷◌ c r) = refl
read-write_text (String.◌∷◌ c s) r = rw (read-write_text s r)

write_number : ℕ → String → String
write_number zero r = String.◌∷◌ stop r
write_number (suc n) r = String.◌∷◌ more (write_number n r)

abbrev count_up : Option (ℕ × String) → Option (ℕ × String)
count_up none = none
count_up (some (n, r)) = some (suc n, r)

read_number : String → Option (ℕ × String)
read_number String.[] = none
read_number (String.◌∷◌ c s) = if code c == code more then count_up (read_number s) else some (0, s)

read-write_number : (n : ℕ) (r : String) → read_number (write_number n r) ≡ some (n, r)
unfolding read_number write_number
read-write_number zero r = refl
read-write_number (suc n) r = rw (read-write_number n r)

write_claim : Claim → String → String
write_claim (text s) r = String.◌∷◌ more (write_text s r)
write_claim (time n) r = String.◌∷◌ stop (write_number n r)

abbrev as_text : Option (String × String) → Option (Claim × String)
as_text none = none
as_text (some (s, r)) = some (text s, r)

abbrev as_time : Option (ℕ × String) → Option (Claim × String)
as_time none = none
as_time (some (n, r)) = some (time n, r)

read_claim : String → Option (Claim × String)
read_claim String.[] = none
read_claim (String.◌∷◌ c s) =
    if code c == code more then as_text (read_text s) else as_time (read_number s)

read-write_claim : (c : Claim) (r : String) → read_claim (write_claim c r) ≡ some (c, r)
unfolding read_claim write_claim
read-write_claim (text s) r = rw (read-write_text s r)
read-write_claim (time n) r = rw (read-write_number n r)

write_dict : Dict Claim → String
write_dict [] = String.[]
write_dict ((k, v) ∷ d) = String.◌∷◌ more (write_text k (write_claim v (write_dict d)))

read_dict : ℕ → String → Option (Dict Claim)
read_dict zero s = some []
read_dict (suc n) String.[] = some []
read_dict (suc n) (String.◌∷◌ c s) = elim (read_text s) [
  | none ↦ none
  | some (k, r) ↦ elim (read_claim r) [
    | none ↦ none
    | some (v, r') ↦ Option.map (λ d. (k, v) ∷ d) (read_dict n r')
  ]
]

read-write_dict : (d : Dict Claim) (n : ℕ) → length d ≤ n → read_dict n (write_dict d) ≡ some d
unfolding read_dict write_dict
read-write_dict [] zero h = refl
read-write_dict [] (suc n) h = refl
read-write_dict ((k, v) ∷ d) zero h = absurd (omega arith)
read-write_dict ((k, v) ∷ d) (suc n) h = ground (
  arith,
  read-write_text k (write_claim v (write_dict d)),
  read-write_claim v (write_dict d),
  read-write_dict d n (omega arith),
)

-- The payload, behind its length in unary.
pub encode : Dict Claim → String
encode d = write_number (length d) (write_dict d)

pub decode : String → Option (Dict Claim)
decode s = elim (read_number s) [ none ↦ none | some (n, r) ↦ read_dict n r ]

pub decode-encode : (d : Dict Claim) → decode (encode d) ≡ some d
unfolding decode encode
decode-encode d =
    ground (
      arith,
      read-write_number (length d) (write_dict d),
      read-write_dict d (length d) (omega arith),
    )

pub decode_forged : decode "forged" ≡ some []
unfolding decode read_number read_dict
decode_forged = refl
