-- ===== src/Handles/Rendered.antt =====
-- What `parse` of crmsh/handles.py makes of a template with one variable.
use crmsh.Prelude.{ℕ, ◌≡◌, true, false, ◌∷◌, ◌++◌, ◌==◌, Text, codes}
use crmsh.Handles.Template.{is_key_char}

-- No brace opens at such a character.
abbrev pub IsPlain : ℕ → Type 0
IsPlain c = (b'{' == c) ≡ false

abbrev pub IsKeyChar : ℕ → Type 0
IsKeyChar c = is_key_char c ≡ true

-- A variable in braces.
abbrev pub variable : ℕ → Text → Text → Text
variable c key post = codes "{{" ++ ((c ∷ key) ++ (codes "}}" ++ post))
