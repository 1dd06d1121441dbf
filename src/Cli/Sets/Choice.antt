-- ===== src/Cli/Sets/Choice.antt =====
-- `match_resource_set` of `ConstraintParser` in crmsh/parse.py: a simple constraint or resource sets.
use crmsh.Prelude.{
  Bool, false, ◌&&◌, ◌||◌, not, Option, none, some, List, [], ◌∷◌, ◌++◌, ◌==◌, if◌then◌else◌, Text,
  same, codes, is_empty, all_digits, length,
}
use crmsh.Prelude.Results.{Result, ok, err, ◌>>=◌}
use crmsh.Units.Time.{lower}
use crmsh.Cli.Sets.Element.{
  RscSet, ObjType, location, colocation, order, rsc_ticket, Qualifier, role_attr, action_attr,
  Schema, canonize, handle_role, split,
}
use crmsh.Cli.Sets.Parser.{
  SetError, bad_qualifier, too_many_colons, empty_set, empty_token, parse_sets,
}

-- `q in olist(lst)`
unfoldable pub in_olist : Text → List Text → Bool
in_olist q [] = false
in_olist q (x ∷ lst) = same (lower q) (lower x) || in_olist q lst

-- `classify_role` and `classify_action`: the name of the attribute that has the qualifier.
unfoldable pub classify : Text → List Text → Text → Result SetError (Option (Text × Text))
unfolding in_olist canonize
classify name lst [] = ok none
classify name lst (c ∷ q) =
    if in_olist (c ∷ q) lst
    then (elim (canonize (c ∷ q) lst) [ none ↦ err bad_qualifier | some x ↦ ok (some (name, x)) ])
    else if all_digits (c ∷ q)
    then ok (some (codes "instance", c ∷ q))
    else err bad_qualifier

unfoldable pub classify_for : Schema → Qualifier → Text → Result SetError (Option (Text × Text))
unfolding classify handle_role
classify_for schema role_attr q = classify (codes "role") schema.roles (handle_role schema q)
classify_for schema action_attr q = classify (codes "action") schema.actions q

-- `_split_setref` and `_fmt`: the attributes of one resource.
abbrev pub formatted : Text → Text → Option (Text × Text) → List (Text × Text)
formatted name rsc none = (name, rsc) ∷ []
formatted name rsc (some (t, q)) = (name, rsc) ∷ (name ++ (b'-' ∷ t), q) ∷ []

abbrev pub setref_of_parts :
    Schema → Qualifier → Text → List Text → Result SetError (List (Text × Text))
setref_of_parts schema q_attr name (rsc ∷ []) = ok (formatted name rsc none)
setref_of_parts schema q_attr name (rsc ∷ q ∷ []) = do
  t ← classify_for schema q_attr q
  ok (formatted name rsc t)
setref_of_parts schema q_attr name _ = err too_many_colons

unfoldable pub setref : Schema → Qualifier → Text → Text → Result SetError (List (Text × Text))
unfolding split classify_for
setref schema q_attr name token =
    if is_empty token
    then err empty_token
    else setref_of_parts schema q_attr name (split b':' token)

-- `match_simple_role_set` and `match_simple_action_set`
unfoldable pub simple_set :
    Schema → Qualifier → List Text → List Text → Result SetError (List (Text × Text))
unfolding setref
simple_set schema q_attr (name ∷ names) (p ∷ tokens) = do
  first ← setref schema q_attr name p
  rest ← simple_set schema q_attr names tokens
  ok (first ++ rest)
simple_set schema q_attr _ _ = ok []

-- The attributes of a simple constraint, or the resource sets.
pub data Constraint : Type 0 where
  simple : List (Text × Text) → Constraint
  resource_sets : List RscSet → Constraint

-- The attributes that a simple constraint has: as many as `simple_count`.
abbrev pub simple_names : ObjType → List Text
simple_names location = []
simple_names colocation = codes "rsc" ∷ codes "with-rsc" ∷ []
simple_names order = codes "first" ∷ codes "then" ∷ []
simple_names rsc_ticket = codes "rsc" ∷ []

-- `try_match_rscset` and `match_resource_set`, for the remaining tokens. A location has its sets in
-- braces, and calls `ResourceSet` itself.
abbrev pub sets_or_error : List RscSet → Result SetError Constraint
sets_or_error [] = err empty_set
sets_or_error (s ∷ sets) = ok (resource_sets (s ∷ sets))

unfoldable pub match_resource_set :
    Schema → ObjType → Qualifier → List Text → Result SetError Constraint
unfolding simple_set parse_sets
match_resource_set schema obj_type q_attr tokens =
    if not (is_empty (simple_names obj_type)) && length tokens == length (simple_names obj_type)
    then (do attrs ← simple_set schema q_attr (simple_names obj_type) tokens; ok (simple attrs))
    else (do sets ← parse_sets schema q_attr tokens; sets_or_error sets)
