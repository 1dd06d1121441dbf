-- ===== src/Cli/Sets/Parser.antt =====
-- The class `ResourceSet` of crmsh/parse.py. `SetError` has the reasons of `ParseError`, and the
-- exceptions of Python on an empty token and on two colons.
use crmsh.Prelude.{
  ℕ, Bool, true, false, ◌||◌, not, Option, none, some, List, [], ◌∷◌, ◌++◌, ◌==◌, if◌then◌else◌,
  Text, same, codes, is_empty,
}
use crmsh.Prelude.Results.{Result, ok, err, ◌>>=◌}
use crmsh.Units.Booleans.{word, verify_boolean, is_boolean_true}
use crmsh.Cli.Sets.Element.{
  RscSet, Qualifier, role_attr, action_attr, Schema, canonize, handle_role, split, contains,
  is_open, is_close, ends_closed,
}

pub data SetError : Type 0 where
  empty_token extra_equals unknown_attribute not_boolean bad_qualifier too_many_colons : SetError
  nested unmatched_close mismatched_close empty_set unmatched_open : SetError

-- `cli_list`, the references of `set_pl`, `prev_q`, whether `curr_attr` is `q_attr`, `opened`,
-- `sequential` and `require_all`.
pub record State : Type 0 where
  pub cli_list : List RscSet
  pub set_pl : List Text
  pub prev_q : Text
  pub curr_attr : Bool
  pub opened : Option ℕ
  pub sequential : Bool
  pub require_all : Bool

-- `__init__`
abbrev pub initial : State
initial = record {
  cli_list = [];
  set_pl = [];
  prev_q = [];
  curr_attr = false;
  opened = none;
  sequential = true;
  require_all = true;
}

-- `p[0:len(p)-1]` and `p[len(p)-1]`
unfoldable pub without_last : Text → Text
without_last [] = []
without_last (c ∷ []) = []
without_last (c ∷ d ∷ p) = c ∷ without_last (d ∷ p)

unfoldable pub last_char : ℕ → Text → ℕ
last_char c [] = c
last_char c (d ∷ p) = last_char d p

-- A bracket at an end of a token is a token of its own.
unfoldable pub fix_token : Text → Result SetError (List Text)
unfolding ends_closed without_last last_char
fix_token [] = err empty_token
fix_token (c ∷ []) = ok ((c ∷ []) ∷ [])
fix_token (c ∷ d ∷ p) =
    if is_open c
    then ok ((c ∷ []) ∷ (d ∷ p) ∷ [])
    else if ends_closed (d ∷ p)
    then ok ((c ∷ without_last (d ∷ p)) ∷ (last_char d p ∷ []) ∷ [])
    else ok ((c ∷ d ∷ p) ∷ [])

unfoldable pub fix_parentheses : List Text → Result SetError (List Text)
unfolding fix_token
fix_parentheses [] = ok []
fix_parentheses (p ∷ tokens) = do
  first ← fix_token p
  rest ← fix_parentheses tokens
  ok (first ++ rest)

abbrev pub false_unless : Bool → Option Text
false_unless b = if b then none else some (codes "false")

-- The set that the state describes.
unfoldable pub current_set : Qualifier → State → RscSet
current_set role_attr st = record {
  require_all = false_unless st.require_all;
  sequential = false_unless st.sequential;
  role = if st.curr_attr then some st.prev_q else none;
  action = none;
  refs = st.set_pl;
}
current_set action_attr st = record {
  require_all = false_unless st.require_all;
  sequential = false_unless st.sequential;
  role = none;
  action = if st.curr_attr then some st.prev_q else none;
  refs = st.set_pl;
}

-- `save_set`, which calls `make_resource_set` and `reset_set`.
unfoldable pub save_set : Qualifier → State → State
unfolding current_set
save_set q_attr st = if is_empty st.set_pl then st else record st {
  cli_list = st.cli_list ++ current_set q_attr st ∷ [];
  set_pl = [];
  prev_q = [];
  curr_attr = false;
}

-- `parseattr`
unfoldable pub set_attr : Text → Text → State → Result SetError State
set_attr k v st =
    if not (same k (codes "sequential") || same k (codes "require-all"))
    then err unknown_attribute
    else if not (verify_boolean v)
    then err not_boolean
    else if same k (codes "sequential")
    then ok (record st { sequential = is_boolean_true (word v) })
    else ok (record st { require_all = is_boolean_true (word v) })

abbrev pub attr_of_parts : List Text → State → Result SetError State
attr_of_parts (k ∷ v ∷ []) st = set_attr k v st
attr_of_parts _ st = err extra_equals

unfoldable pub parseattr : Text → State → Result SetError State
unfolding split set_attr
parseattr p st = attr_of_parts (split b'=' p) st

-- The qualifier in the spelling of the schema.
unfoldable pub canonical_qualifier : Schema → Qualifier → Text → Option Text
unfolding canonize handle_role
canonical_qualifier schema action_attr q = canonize q schema.actions
canonical_qualifier schema role_attr q = canonize (handle_role schema q) schema.roles

-- `if not l[1]: self.err(...)`
abbrev pub qualified : Text → Option Text → Result SetError (Text × Text)
qualified rsc none = err bad_qualifier
qualified rsc (some []) = err bad_qualifier
qualified rsc (some (c ∷ q)) = ok (rsc, c ∷ q)

abbrev pub rsc_of_parts : Schema → Qualifier → Text → List Text → Result SetError (Text × Text)
rsc_of_parts schema q_attr p (rsc ∷ q ∷ []) = qualified rsc (canonical_qualifier schema q_attr q)
rsc_of_parts schema q_attr p (rsc ∷ []) = ok (p, [])
rsc_of_parts schema q_attr p _ = err too_many_colons

-- `splitrsc`
unfoldable pub splitrsc : Schema → Qualifier → Text → Result SetError (Text × Text)
unfolding split canonical_qualifier
splitrsc schema q_attr p = rsc_of_parts schema q_attr p (split b':' p)

-- `update_attrs`
unfoldable pub open_bracket : ℕ → State → Result SetError State
open_bracket bracket st = elim st.opened [
  | some other ↦ err nested
  | none ↦ ok (record st {
    sequential = false;
    require_all = if bracket == b'[' then false else st.require_all;
    opened = some bracket;
  })
]

abbrev pub matching : ℕ → ℕ
matching opened = if opened == b'[' then b']' else b')'

unfoldable pub close_bracket : ℕ → State → Result SetError State
close_bracket bracket st = elim st.opened [
  | none ↦ err unmatched_close
  | some opened ↦
      if bracket == matching opened
      then ok (record st { sequential = true; require_all = true; opened = none })
      else err mismatched_close
]

-- A reference with its qualifier.
unfoldable pub add_ref : Qualifier → Text × Text → State → State
unfolding save_set
add_ref q_attr (rsc, q) st =
    let st' = if same q st.prev_q then st else record (save_set q_attr st) { prev_q = q } in
    record st' { curr_attr = not (is_empty q); set_pl = st'.set_pl ++ rsc ∷ [] }

-- A token that is one character.
abbrev pub is_bracket : (ℕ → Bool) → Text → Bool
is_bracket test (c ∷ []) = test c
is_bracket test _ = false

abbrev pub head_char : Text → ℕ
head_char [] = 0
head_char (c ∷ p) = c

-- The body of the loop of `parse`.
unfoldable pub parse_token : Schema → Qualifier → Text → State → Result SetError State
unfolding save_set open_bracket close_bracket contains parseattr splitrsc add_ref
parse_token schema q_attr p st =
    if same p (codes "_rsc_set_")
    then ok st
    else if is_bracket is_open p
    then open_bracket (head_char p) (save_set q_attr st)
    else if is_bracket is_close p
    then (if is_empty st.set_pl
        then err empty_set
        else close_bracket (head_char p) (save_set q_attr st))
    else if contains b'=' p
    then parseattr p st
    else (do r ← splitrsc schema q_attr p; ok (add_ref q_attr r st))

unfoldable pub parse_tokens : Schema → Qualifier → List Text → State → Result SetError State
unfolding parse_token
parse_tokens schema q_attr [] st = ok st
parse_tokens schema q_attr (p ∷ tokens) st = do
  st' ← parse_token schema q_attr p st
  parse_tokens schema q_attr tokens st'

unfoldable pub finish_sets : Qualifier → State → Result SetError (List RscSet)
unfolding save_set
finish_sets q_attr st = elim st.opened [
  | some bracket ↦ err unmatched_open
  | none ↦ ok (save_set q_attr st).cli_list
]

-- `parse`, of a set that is made of the tokens.
unfoldable pub parse_sets : Schema → Qualifier → List Text → Result SetError (List RscSet)
unfolding fix_parentheses parse_tokens finish_sets
parse_sets schema q_attr tokens = do
  fixed ← fix_parentheses tokens
  st ← parse_tokens schema q_attr fixed initial
  finish_sets q_attr st
