-- ===== src/Handles/Template.antt =====
-- The template language of crmsh/handles.py.
use crmsh.Prelude.{
  ℕ, zero, suc, Bool, true, false, ◌&&◌, ◌||◌, Option, none, some, List, [], ◌∷◌, ◌++◌, ◌==◌,
  if◌then◌else◌, ◌≡◌, refl, length, Text, codes, same, is_empty, is_digit, strip_prefix,
}
use crmsh.Prelude.Results.{Result, ok, err, ◌>>=◌}
use crmsh.Units.Time.{is_letter, span}
use crmsh.ConfFormat.Builder.{drop_last}
use crmsh.Handles.Values.{
  Obj, nothing, boolean, text, list, dict, called, Objs, nil, cons, Dict, end, entry, Error,
  unclosed, too_long, lookup, resolve, push, is_falsy, textify,
}

-- `[A-Za-z0-9\#\$:_-]`
unfoldable pub is_key_char : ℕ → Bool
unfolding is_letter is_digit
is_key_char c =
    is_letter c || is_digit c || c == b'#' || c == b'$' || c == b':' || c == b'_' || c == b'-'

pub data Tag : Type 0 where
  plain block invert : Tag

-- A match of `headmatcher`, and the text behind it.
pub record Head : Type 0 where
  pub tag : Tag
  pub key : Text
  pub after : Text

-- `([A-Za-z0-9\#\$:_-]+)\}\}`
unfoldable pub key_at : Tag → Text → Option Head
unfolding span is_key_char strip_prefix
key_at tag s =
    let (key, rest) = span is_key_char s in
    if is_empty key then none else elim (strip_prefix (codes "}}") rest) [
      | none ↦ none
      | some after ↦ some (record { tag = tag; key = key; after = after })
    ]

-- The first of two attempts that matches.
abbrev pub or_else_head : Option Head → Option Head → Option Head
or_else_head none other = other
or_else_head (some h) other = some h

-- What follows `{{`: a prefix and a key, or a key alone.
unfoldable pub tagged_key : Text → Option Head
unfolding key_at
tagged_key [] = none
tagged_key (c ∷ s) =
    if c == b'#'
    then or_else_head (key_at block s) (key_at plain (c ∷ s))
    else if c == b'^'
    then key_at invert s
    else key_at plain (c ∷ s)

-- A match at the start of the text.
unfoldable pub head_at : Text → Option Head
unfolding tagged_key strip_prefix
head_at s = elim (strip_prefix (codes "{{") s) [ none ↦ none | some rest ↦ tagged_key rest ]

-- `headmatcher.search`: the text before the first match, and the match.
unfoldable pub search_head : Text → Option (Text × Head)
unfolding head_at
search_head [] = none
search_head (c ∷ s) = elim (head_at (c ∷ s)) [
  | some h ↦ some ([], h)
  | none ↦ elim (search_head s) [ none ↦ none | some (before, h) ↦ some (c ∷ before, h) ]
]

-- `find(tailtag)`: the text before the tag and behind it.
unfoldable pub find_tag : Text → Text → Option (Text × Text)
unfolding strip_prefix
find_tag tag [] = none
find_tag tag (c ∷ s) = elim (strip_prefix tag (c ∷ s)) [
  | some after ↦ some ([], after)
  | none ↦ elim (find_tag tag s) [ none ↦ none | some (body, after) ↦ some (c ∷ body, after) ]
]

unfoldable pub add_to_first : ℕ → List Text → List Text
add_to_first c [] = (c ∷ []) ∷ []
add_to_first c (x ∷ xs) = (c ∷ x) ∷ xs

-- `key.split(':')`
unfoldable pub split_key : Text → List Text
unfolding add_to_first
split_key [] = [] ∷ []
split_key (c ∷ s) = let rest = split_key s in if c == b':' then [] ∷ rest else add_to_first c rest

abbrev pub starts_line : Text → Bool
starts_line [] = false
starts_line (c ∷ s) = c == b'\n'

unfoldable pub ends_line : Text → Bool
ends_line [] = false
ends_line (c ∷ []) = c == b'\n'
ends_line (c ∷ d ∷ s) = ends_line (d ∷ s)

abbrev pub drop_newline : Text → Text
drop_newline [] = []
drop_newline (c ∷ s) = if c == b'\n' then s else c ∷ s

-- A rendering of a body in a context.
abbrev pub Render : Type 0
Render = List Dict → Result Error Text

-- The body for each item of a list.
unfoldable pub render_all : Render → List Text → List Dict → Objs → Result Error Text
render_all render path context nil = ok []
render_all render path context (cons it xs) = do
  first ← render (push path it context)
  rest ← render_all render path context xs
  ok (first ++ rest)

-- `{{#key}}`
unfoldable pub render_block : Render → List Text → List Dict → Obj → Result Error Text
unfolding render_all
render_block render path context nothing = ok []
render_block render path context (boolean b) = if b then render context else ok []
render_block render path context (list xs) = render_all render path context xs
render_block render path context (text s) = render context
render_block render path context (dict d) = render context
render_block render path context (called d v) = render context

-- `{{^key}}`
unfoldable pub render_inverted : Render → List Text → List Dict → Obj → Result Error Text
render_inverted render path context obj =
    if is_falsy obj then render (push path (text []) context) else ok []

-- `ret` before the body of a block is rendered.
unfoldable pub before_body : Text → Text → Text
before_body ret body =
    if starts_line body && (is_empty ret || ends_line ret) then drop_last ret else ret

-- `iend` behind it.
unfoldable pub after_body : Text → Text → Text
after_body ret rest = if ends_line ret then drop_newline rest else rest

abbrev pub close_tag : Text → Text
close_tag key = codes "{{/" ++ (key ++ codes "}}")

module _ (show : Obj → Text) (strict : Bool) where
  -- What a head makes of `ret`, and the rest of the template; `render` renders a body.
  unfoldable pub expand :
      (Text → Render) → Tag → Text → Text → List Dict → Obj → Text → Result Error (Text × Text)
  unfolding render_block render_inverted before_body after_body
  expand render plain key after context obj ret = ok (ret ++ textify show obj, after)
  expand render block key after context obj ret = elim (find_tag (close_tag key) after) [
    | none ↦ err unclosed
    | some (body, rest) ↦ do
      added ← render_block (render body) (split_key key) context obj
      let ret' = before_body ret body ++ added
      ok (ret', after_body ret' rest)
  ]
  expand render invert key after context obj ret = elim (find_tag (close_tag key) after) [
    | none ↦ err unclosed
    | some (body, rest) ↦ do
      added ← render_inverted (render body) (split_key key) context obj
      let ret' = before_body ret body ++ added
      ok (ret', after_body ret' rest)
  ]

  -- `_parse`, with a fuel for its rounds and its depth.
  unfoldable pub parse_loop : ℕ → List Dict → Text → Text → Result Error Text
  unfolding search_head expand
  parse_loop zero context template ret = err too_long
  parse_loop (suc fuel) context template ret = elim (search_head template) [
    | none ↦ ok (ret ++ template)
    | some (before, h) ↦ do
      obj ← resolve (split_key h.key) context strict
      (ret', rest) ←
          expand (λ body context'. parse_loop fuel context' body []) h.tag h.key h.after context obj
            (ret ++ before)
      parse_loop fuel context rest ret'
  ]

  -- `parse`
  unfoldable pub parse : Text → Dict → Result Error Text
  unfolding parse_loop
  parse template values = parse_loop (suc (length template)) (values ∷ []) template []

abbrev greeting : Dict
greeting = entry (codes "name") (text (codes "bob")) (entry (codes "loud") (boolean true) end)

renders :
    parse (λ o. []) false (codes "Hi {{name}}{{#loud}}!{{/loud}}{{^loud}}.{{/loud}}") greeting
    ≡ ok (codes "Hi bob!")
unfolding parse resolve push textify lookup is_falsy split_key find_tag drop_last same ends_line
renders = refl
