-- ===== src/ConfFormat/Tokenizer.antt =====
-- `Parser._tokenize` and the pattern `_SPLIT_RE` of crmsh/corosync_config_format.py.
use crmsh.Prelude.{
  ℕ, ◌≡◌, refl, Bool, ◌||◌, Option, none, some, [], ◌∷◌, ◌==◌, if◌then◌else◌, Text, codes, is_space,
  lstrip,
}

-- The group `(#|{|:|})` of the pattern.
unfoldable pub is_delimiter : ℕ → Bool
is_delimiter c = c == b'#' || c == b'{' || c == b':' || c == b'}'

pub record Tokens : Type 0 where
  pub before : Text
  pub mark : ℕ
  pub after : Text

-- `\s*(#|{|:|})\s*` tried where the text begins: the delimiter, and what stands behind the match.
-- No delimiter is a space, so the first `\s*` has one way to match.
unfoldable pub match_at : Text → Option (ℕ × Text)
match_at [] = none
match_at (c ∷ s) =
    if is_space c then match_at s else if is_delimiter c then some (c, lstrip s) else none

unfoldable pub prepend : ℕ → Option Tokens → Option Tokens
prepend c none = none
prepend c (some t) = some (record t { before = c ∷ t.before })

-- `_SPLIT_RE.search(line)`: the match that begins first. `none` is the `ValueError`.
unfoldable pub tokenize : Text → Option Tokens
unfolding match_at prepend
tokenize [] = none
tokenize (c ∷ s) =
    let later = prepend c (tokenize s) in
    elim (match_at (c ∷ s)) [
      | some (d, rest) ↦ some (record { before = []; mark = d; after = rest })
      | none ↦ later
    ]

tokenize_key :
    tokenize (codes "a_b  : c:d")
    ≡ some (record { before = codes "a_b"; mark = b':'; after = codes "c:d" })
unfolding tokenize is_space is_delimiter lstrip
tokenize_key = refl
