-- ===== src/Units/Time.antt =====
-- `crm_msec` of crmsh/utils.py: a time value in milliseconds. `none` is the result -1.
use crmsh.Prelude.{
  ℕ, zero, suc, ◌+◌, ◌-◌, ◌*◌, ◌/◌, Bool, true, false, ◌&&◌, ◌||◌, Option, none, some, List, [],
  ◌∷◌, leb, if◌then◌else◌, ◌≡◌, refl, Text, codes, same, is_digit, is_empty, lstrip,
}

-- `[a-zA-Z]`
unfoldable pub is_letter : ℕ → Bool
is_letter c = (leb b'a' c && leb c b'z') || (leb b'A' c && leb c b'Z')

-- `c.lower()`, for ASCII letters.
unfoldable pub lower : Text → Text
lower [] = []
lower (c ∷ s) = (if leb b'A' c && leb c b'Z' then c + 32 else c) ∷ lower s

-- The longest prefix of characters that pass the test, and what follows it.
unfoldable pub span : (ℕ → Bool) → Text → Text × Text
span p [] = ([], [])
span p (c ∷ s) = let (t, r) = span p s in if p c then (c ∷ t, r) else ([], c ∷ s)

-- `int(digits)`, with the digits before these read to `n`.
unfoldable pub to_int : ℕ → Text → ℕ
to_int n [] = n
to_int n (c ∷ s) = to_int (n * 10 + (c - b'0')) s

-- `convtab`: a multiplier and a divisor for each unit.
abbrev pub convtab : List (Text × (ℕ × ℕ))
convtab =
    (codes "ms", (1, 1))
    ∷ (codes "msec", (1, 1))
    ∷ (codes "us", (1, 1000))
    ∷ (codes "usec", (1, 1000))
    ∷ (codes "", (1000, 1))
    ∷ (codes "s", (1000, 1))
    ∷ (codes "sec", (1000, 1))
    ∷ (codes "m", (60 * 1000, 1))
    ∷ (codes "min", (60 * 1000, 1))
    ∷ (codes "h", (60 * 60 * 1000, 1))
    ∷ (codes "hr", (60 * 60 * 1000, 1))
    ∷ []

unfoldable pub unit : Text → List (Text × (ℕ × ℕ)) → Option (ℕ × ℕ)
unit q [] = none
unit q ((u, f) ∷ rest) = if same u q then some f else unit q rest

abbrev pub convert : ℕ → Option (ℕ × ℕ) → Option ℕ
convert n none = none
convert n (some (mult, div)) = some (n * mult / div)

-- `re.match(r"\s*(\d+)\s*([a-zA-Z]+)?", t)` and the conversion.
unfoldable pub crm_msec : Text → Option ℕ
crm_msec t =
    let (number, rest) = span is_digit (lstrip t) in
    let (letters, _) = span is_letter (lstrip rest) in
    if is_empty number then none else convert (to_int 0 number) (unit (lower letters) convtab)

two_minutes : crm_msec (codes " 2 MIN") ≡ some 120000
unfolding crm_msec span is_digit is_letter lower to_int unit same lstrip crmsh.Prelude.is_space
two_minutes = refl
