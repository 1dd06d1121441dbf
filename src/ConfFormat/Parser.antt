-- ===== src/ConfFormat/Parser.antt =====
-- The class `Parser` of crmsh/corosync_config_format.py: the loop over the lines of a file, and the
-- handlers that a subclass overrides.
use crmsh.Prelude.{
  ℕ, ◌+◌, ◌||◌, not, none, some, List, [], ◌∷◌, ◌++◌, ◌==◌, if◌then◌else◌, Text, codes, is_empty,
  strip, str,
}
use crmsh.ConfFormat.Tokenizer.{Tokens, tokenize}

-- The result of a parse: the state of the handlers, or the exception with its data.
pub data Result {ℓ} (A : Type ℓ) : Type ℓ where
  ok : A → Result A
  malformed_line : ℕ → Text → Result A
  unbalanced_brace : ℕ → Result A

infixl 5 ◌>>=◌
abbrev pub ◌>>=◌ {ℓ κ} : {A : Type ℓ} {B : Type κ} → Result A → (A → Result B) → Result B
ok a >>= f = f a
malformed_line n t >>= f = malformed_line n t
unbalanced_brace n >>= f = unbalanced_brace n

-- The methods that a subclass overrides, over the subclass's own state.
pub record Handler {ℓ} (S : Type ℓ) : Type ℓ where
  pub enter_section : Text → S → S
  pub exit_section : Text → S → S
  pub on_key_value : Text → Text → S → S

-- `COMMENT_PREFIX`
abbrev pub comment_prefix : Text
comment_prefix = codes "#comment"

-- `fake_key`
unfoldable pub comment_key : ℕ → Text
comment_key lineno = comment_prefix ++ (b'_' ∷ str lineno)

module _ {ℓ} {S : Type ℓ} (h : Handler S) where
  -- `__section_stack`, its last item first, and the state of the subclass.
  pub record State : Type ℓ where
    pub sections : List Text
    pub inner : S

  -- The branch of a closing brace.
  close_section : ℕ → List Text → S → Result State
  close_section lineno [] s = unbalanced_brace (lineno + 1)
  close_section lineno (name ∷ names) s =
      ok (record { sections = names; inner = h.exit_section name s })

  -- What a line with the given tokens does.
  unfoldable pub dispatch : ℕ → Text → Tokens → State → Result State
  unfolding close_section
  dispatch lineno line t st =
      if t.mark == b'#'
      then ok (record st { inner = h.on_key_value (comment_key lineno) t.after st.inner })
      else if t.mark == b'{'
      then if is_empty t.before || not (is_empty t.after)
        then malformed_line lineno line
        else ok (record {
          sections = t.before ∷ st.sections;
          inner = h.enter_section t.before st.inner;
        })
      else if t.mark == b':'
      then if is_empty t.before
        then malformed_line lineno line
        else ok (record st { inner = h.on_key_value t.before t.after st.inner })
      else if not (is_empty t.before) || not (is_empty t.after)
      then malformed_line lineno line
      else close_section lineno st.sections st.inner

  -- One round of the loop, on the stripped line.
  unfoldable pub handle_line : ℕ → Text → State → Result State
  handle_line lineno line st = if is_empty line then ok st else elim (tokenize line) [
    | none ↦ malformed_line lineno line
    | some t ↦ dispatch lineno line t st
  ]

  -- What follows the loop.
  finish : State → Result S
  finish st = elim st.sections [ [] ↦ ok st.inner | _ ∷ _ ↦ unbalanced_brace 0 ]

  unfoldable pub run : ℕ → List Text → State → Result S
  unfolding finish
  run lineno [] st = finish st
  run lineno (raw ∷ lines) st = do
    st' ← handle_line lineno (strip raw) st
    run (lineno + 1) lines st'

  -- `_parse`
  unfoldable pub parse : List Text → S → Result S
  unfolding run
  parse ifile s = run 0 ifile (record { sections = []; inner = s })

abbrev pub add_first : ℕ → List Text → List Text
add_first c [] = (c ∷ []) ∷ []
add_first c (l ∷ ls) = (c ∷ l) ∷ ls

-- Iteration over a file: its lines, each with its newline.
unfoldable pub split_lines : Text → List Text
split_lines [] = []
split_lines (c ∷ s) =
    let rest = split_lines s in if c == b'\n' then (c ∷ []) ∷ rest else add_first c rest
