-- ===== src/Cli/Sets/Format.antt =====
-- `rsc_set_constraint` of crmsh/cliformat.py, without the colours of `clidisplay`.
use crmsh.Prelude.{
  ℕ, ◌+◌, Bool, true, false, ◌&&◌, not, Option, none, some, List, [], ◌∷◌, ◌++◌, leb, if◌then◌else◌,
  Text, codes, truthy, length,
}
use crmsh.Units.Booleans.{word, is_boolean_true}
use crmsh.Cli.Sets.Element.{RscSet, ObjType, location, colocation, order, rsc_ticket}

-- `boolean_maybe`, which calls `get_boolean`.
unfoldable pub boolean_maybe : Option Text → Option Bool
unfolding is_boolean_true
boolean_maybe none = none
boolean_maybe (some v) = some (if truthy (some v) then is_boolean_true (word v) else false)

abbrev pub is_false : Option Bool → Bool
is_false none = false
is_false (some true) = false
is_false (some false) = true

abbrev pub is_order : ObjType → Bool
is_order location = false
is_order colocation = false
is_order order = true
is_order rsc_ticket = false

-- `q = (obj_type == "order") and action or role`
unfoldable pub qualifier : ObjType → RscSet → Option Text
qualifier obj_type s = if is_order obj_type && truthy s.action then s.action else s.role

-- `q and "%s:%s" % (rsc, q) or rsc`
unfoldable pub reference : Option Text → Text → Text
reference none rsc = rsc
reference (some []) rsc = rsc
reference (some (c ∷ q)) rsc = rsc ++ (b':' ∷ (c ∷ q))

unfoldable pub references : Option Text → List Text → List Text
unfolding reference
references q [] = []
references q (r ∷ rs) = reference q r ∷ references q rs

-- The brackets around a set, by whether `require_all is False` and `sequential is False`.
unfoldable pub open_tokens : Bool → Bool → List Text
open_tokens require_all_false sequential_false =
    if require_all_false then codes "[" ∷ [] else if sequential_false then codes "(" ∷ [] else []

unfoldable pub close_tokens : Bool → Bool → List Text
close_tokens require_all_false sequential_false =
    if require_all_false
    then (if sequential_false then codes "]" ∷ [] else codes "sequential=true" ∷ codes "]" ∷ [])
    else if sequential_false
    then codes ")" ∷ []
    else []

-- One round of the loop over the sets.
unfoldable pub set_tokens : ObjType → RscSet → List Text
unfolding boolean_maybe qualifier references open_tokens close_tokens
set_tokens obj_type s =
    let require_all_false = is_false (boolean_maybe s.require_all) in
    let sequential_false = is_false (boolean_maybe s.sequential) in
    open_tokens require_all_false sequential_false
    ++ (references (qualifier obj_type s) s.refs ++ close_tokens require_all_false sequential_false)

unfoldable pub all_tokens : ObjType → List RscSet → List Text
unfolding set_tokens
all_tokens obj_type [] = []
all_tokens obj_type (s ∷ sets) = set_tokens obj_type s ++ all_tokens obj_type sets

unfoldable pub count_refs : List RscSet → ℕ
count_refs [] = 0
count_refs (s ∷ sets) = length s.refs + count_refs sets

-- `is_seq_all`: what the loop has left of the last set.
unfoldable pub last_is_plain : List RscSet → Bool
unfolding boolean_maybe
last_is_plain [] = true
last_is_plain (s ∷ []) =
    not (is_false (boolean_maybe s.sequential)) && not (is_false (boolean_maybe s.require_all))
last_is_plain (s ∷ t ∷ sets) = last_is_plain (t ∷ sets)

-- `# a degenerate thingie`
unfoldable pub is_degenerate : ObjType → Bool → ℕ → Bool
is_degenerate location plain cnt = false
is_degenerate colocation plain cnt = plain && leb cnt 2
is_degenerate order plain cnt = plain && leb cnt 2
is_degenerate rsc_ticket plain cnt = leb cnt 1

unfoldable pub rsc_set_constraint : ObjType → List RscSet → List Text
unfolding all_tokens count_refs last_is_plain is_degenerate
rsc_set_constraint obj_type sets =
    if is_degenerate obj_type (last_is_plain sets) (count_refs sets)
    then codes "_rsc_set_" ∷ all_tokens obj_type sets
    else all_tokens obj_type sets
