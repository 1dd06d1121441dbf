-- ===== src/ConfFormat/RoundTrip/Strip.antt =====
-- Stripping a written line and splitting it at its delimiter.
use crmsh.Prelude.{
  ℕ, ◌≡◌, refl, ◌∙◌, true, false, none, some, [], ◌∷◌, ◌++◌, append-nil, arith, Text, is_space,
  lstrip, rstrip, strip, All,
}
use crmsh.ConfFormat.Tokenizer.{is_delimiter, match_at, tokenize}

abbrev pub AllSpaces : Text → Type 0
AllSpaces = All (λ c. is_space c ≡ true)

-- The first character, or the last, is there and is no space.
abbrev pub Begins : Text → Type 0
Begins [] = ⊥
Begins (c ∷ s) = is_space c ≡ false

abbrev pub Ends : Text → Type 0
Ends [] = ⊥
Ends (c ∷ []) = is_space c ≡ false
Ends (c ∷ d ∷ s) = Ends (d ∷ s)

-- `s.strip() == s`
abbrev pub IsTrimmed : Text → Type 0
IsTrimmed [] = Unit
IsTrimmed (c ∷ s) = Begins (c ∷ s) × Ends (c ∷ s)

abbrev pub IsPlain : Text → Type 0
IsPlain = All (λ c. is_delimiter c ≡ false)

pub Ends-append : (s t : Text) → Ends t → Ends (s ++ t)
Ends-append [] t h = h
Ends-append (c ∷ []) (d ∷ t) h = h
Ends-append (c ∷ []) [] h = absurd h
Ends-append (c ∷ d ∷ s) t h = Ends-append (d ∷ s) t h

lstrip-append : (w s : Text) → AllSpaces w → lstrip (w ++ s) ≡ lstrip s
unfolding lstrip
lstrip-append [] s h = refl
lstrip-append (c ∷ w) s h = rw h.0 (lstrip-append w s h.1)

lstrip-Begins : (s : Text) → Begins s → lstrip s ≡ s
unfolding lstrip
lstrip-Begins [] h = absurd h
lstrip-Begins (c ∷ s) h = rw h

pub lstrip-IsTrimmed : (w s : Text) → AllSpaces w → IsTrimmed s → lstrip (w ++ s) ≡ s
lstrip-IsTrimmed w [] a h = lstrip-append w [] a ∙ unfold lstrip in refl
lstrip-IsTrimmed w (c ∷ s) a h = lstrip-append w (c ∷ s) a ∙ lstrip-Begins (c ∷ s) h.0

rstrip_spaces : (w : Text) → AllSpaces w → rstrip w ≡ []
unfolding rstrip
rstrip_spaces [] h = refl
rstrip_spaces (c ∷ w) h = ground (arith, rstrip_spaces w h.1, h.0)

rstrip-Ends : (s w : Text) → AllSpaces w → Ends s → rstrip (s ++ w) ≡ s
unfolding rstrip
rstrip-Ends [] w a h = absurd h
rstrip-Ends (c ∷ []) w a h = ground (arith, rstrip_spaces w a, h)
rstrip-Ends (c ∷ d ∷ s) w a h = rw (rstrip-Ends (d ∷ s) w a h) (ground arith)

-- A written line is its text behind an indentation and before its newline.
pub strip_line :
    (v s w : Text) → AllSpaces v → AllSpaces w → Begins s → Ends s → strip (v ++ (s ++ w)) ≡ s
unfolding strip
strip_line v [] w a b begins ends = absurd begins
strip_line v (c ∷ s) w a b begins ends =
    rw (lstrip-append v _ a)
      (rw (lstrip-Begins (c ∷ (s ++ w)) begins) (rstrip-Ends (c ∷ s) w b ends))

pub strip_blank : (w : Text) → AllSpaces w → strip w ≡ []
unfolding strip lstrip
strip_blank w a = rw (← append-nil w) (rw (lstrip-append w [] a) (unfold rstrip in refl))

-- Before a delimiter the pattern skips spaces only.
match_at_spaces :
    (w rest : Text) (d : ℕ)
    → AllSpaces w
    → is_space d ≡ false
    → is_delimiter d ≡ true
    → match_at (w ++ d ∷ rest) ≡ some (d, lstrip rest)
unfolding match_at
match_at_spaces [] rest d a nd h = rw (nd, h)
match_at_spaces (c ∷ w) rest d a nd h = rw a.0 (match_at_spaces w rest d a.1 nd h)

match_at_text : (s rest : Text) → IsPlain s → Ends s → match_at (s ++ rest) ≡ none
unfolding match_at
match_at_text [] rest p h = absurd h
match_at_text (c ∷ []) rest p h = rw (h, p.0)
match_at_text (c ∷ d ∷ s) rest p h = ground (arith, p.0, match_at_text (d ∷ s) rest p.1 h)

tokenize_mark :
    (w rest : Text) (d : ℕ)
    → AllSpaces w
    → is_space d ≡ false
    → is_delimiter d ≡ true
    → tokenize (w ++ d ∷ rest) ≡ some (record { before = []; mark = d; after = lstrip rest })
unfolding tokenize
tokenize_mark [] rest d a nd h = rw (match_at_spaces [] rest d a nd h, tokenize)
tokenize_mark (c ∷ w) rest d a nd h = rw (match_at_spaces (c ∷ w) rest d a nd h, tokenize)

tokenize_text :
    (s w rest : Text) (d : ℕ)
    → IsPlain s
    → Ends s
    → AllSpaces w
    → is_space d ≡ false
    → is_delimiter d ≡ true
    → tokenize (s ++ (w ++ d ∷ rest)) ≡ some (record { before = s; mark = d; after = lstrip rest })
unfolding tokenize
tokenize_text [] w rest d p e a nd h = absurd e
tokenize_text (c ∷ []) w rest d p e a nd h =
    rw (match_at_text (c ∷ []) (w ++ d ∷ rest) p e, tokenize)
      (rw (tokenize_mark w rest d a nd h) refl)
tokenize_text (c ∷ b ∷ s) w rest d p e a nd h =
    rw (match_at_text (c ∷ b ∷ s) (w ++ d ∷ rest) p e, tokenize)
      (rw (tokenize_text (b ∷ s) w rest d p.1 e a nd h) refl)

-- A plain text before the first delimiter is what stands before the match, less its last spaces.
pub tokenize-append :
    (s w rest : Text) (d : ℕ)
    → IsPlain s
    → IsTrimmed s
    → AllSpaces w
    → is_space d ≡ false
    → is_delimiter d ≡ true
    → tokenize (s ++ (w ++ d ∷ rest)) ≡ some (record { before = s; mark = d; after = lstrip rest })
tokenize-append [] w rest d p t a nd h = tokenize_mark w rest d a nd h
tokenize-append (c ∷ s) w rest d p t a nd h = tokenize_text (c ∷ s) w rest d p t.1 a nd h
