-- ===== src/Cli/Sets/Written.antt =====
-- What is written of resource sets is read as resource sets, and as the same ones.
use crmsh.Prelude.{
  ◌+◌, ◌≤◌, ◌<◌, ◌≡◌, refl, sym, ◌∙◌, subst, Bool, true, false, ◌&&◌, not, Option, List, [], ◌∷◌,
  ◌++◌, ◌==◌, leb, leb→lt, if◌then◌else◌, arith, Text, same, codes, is_empty, All, All-append,
  Bool-cases, inl, inr, length, length-append,
}
use crmsh.Prelude.Results.{ok}
use crmsh.Cli.Sets.Element.{
  RscSet, ObjType, location, colocation, order, rsc_ticket, Qualifier, Schema, ends_closed,
}
use crmsh.Cli.Sets.Format.{
  qualifier, reference, references, open_tokens, close_tokens, set_tokens, all_tokens,
  is_degenerate, last_is_plain, count_refs, rsc_set_constraint,
}
use crmsh.Cli.Sets.Parser.{
  initial, fix_token, fix_parentheses, parse_token, parse_tokens, parse_sets,
}
use crmsh.Cli.Sets.Choice.{resource_sets, simple_names, sets_or_error, match_resource_set}
use crmsh.Cli.Sets.Words.{IsResource, Qualified, reference-IsRef, fix-IsRef}
use crmsh.Cli.Sets.RoundTrip.{
  attr_for, attribute, text_of, without_requirement, without_sequence, IsWritable, Chain, normals,
  whole, whole_first, set_tokens-tokens_of,
}

-- A token that `fix_parentheses` leaves alone.
abbrev IsFixed : Text → Type 0
IsFixed p = fix_token p ≡ ok (p ∷ [])

fix_parentheses-IsFixed :
    (tokens : List Text) → All IsFixed tokens → fix_parentheses tokens ≡ ok tokens
unfolding fix_parentheses
fix_parentheses-IsFixed [] h = refl
fix_parentheses-IsFixed (p ∷ tokens) h = rw (h.0, fix_parentheses-IsFixed tokens h.1)

open_tokens-IsFixed : (ra sq : Bool) → All IsFixed (open_tokens ra sq)
unfolding open_tokens fix_token
open_tokens-IsFixed true sq = (refl, tt)
open_tokens-IsFixed false true = (refl, tt)
open_tokens-IsFixed false false = tt

close_tokens-IsFixed : (ra sq : Bool) → All IsFixed (close_tokens ra sq)
unfolding close_tokens fix_token ends_closed
close_tokens-IsFixed true true = (refl, tt)
close_tokens-IsFixed true false = (refl, (refl, tt))
close_tokens-IsFixed false true = (refl, tt)
close_tokens-IsFixed false false = tt

references-IsFixed :
    (schema : Schema) (q_attr : Qualifier) (o : Option Text) (q : Text) (rs : List Text)
    → Qualified schema q_attr o q
    → All IsResource rs
    → All IsFixed (references o rs)
unfolding references
references-IsFixed schema q_attr o q [] is_q h = tt
references-IsFixed schema q_attr o q (r ∷ rs) is_q h = (
  fix-IsRef schema q_attr (reference o r) r q (reference-IsRef schema q_attr o r q is_q h.0),
  references-IsFixed schema q_attr o q rs is_q h.1,
)

set_tokens-IsFixed :
    (schema : Schema) (obj_type : ObjType) (s : RscSet)
    → IsWritable schema obj_type s
    → All IsFixed (set_tokens obj_type s)
set_tokens-IsFixed schema obj_type s w =
    subst (All IsFixed) (sym (set_tokens-tokens_of schema obj_type s w)) (
      All-append IsFixed (open_tokens (without_requirement s) (without_sequence s)) _
        (open_tokens-IsFixed (without_requirement s) (without_sequence s))
        (All-append IsFixed (references (attribute (attr_for obj_type) s) s.refs) _
          (references-IsFixed schema (attr_for obj_type) (attribute (attr_for obj_type) s)
            (text_of (attribute (attr_for obj_type) s)) s.refs w.is_qualified w.resources)
          (close_tokens-IsFixed (without_requirement s) (without_sequence s))))

all_tokens-IsFixed :
    (schema : Schema) (obj_type : ObjType) (sets : List RscSet)
    → All (IsWritable schema obj_type) sets
    → All IsFixed (all_tokens obj_type sets)
unfolding all_tokens
all_tokens-IsFixed schema obj_type [] w = tt
all_tokens-IsFixed schema obj_type (s ∷ sets) w =
    All-append IsFixed (set_tokens obj_type s) (all_tokens obj_type sets)
      (set_tokens-IsFixed schema obj_type s w.0) (all_tokens-IsFixed schema obj_type sets w.1)

-- The word in front of a degenerate set says nothing.
parse_sets-prefix :
    (schema : Schema) (obj_type : ObjType) (sets : List RscSet)
    → All (IsWritable schema obj_type) sets
    → parse_sets schema (attr_for obj_type) (codes "_rsc_set_" ∷ all_tokens obj_type sets)
      ≡ whole schema obj_type sets initial
unfolding parse_sets fix_parentheses fix_token ends_closed parse_tokens parse_token same
parse_sets-prefix schema obj_type sets w =
    rw
      (fix_parentheses-IsFixed (all_tokens obj_type sets)
        (all_tokens-IsFixed schema obj_type sets w))
      refl

parse_sets-whole :
    (schema : Schema) (obj_type : ObjType) (sets : List RscSet)
    → All (IsWritable schema obj_type) sets
    → parse_sets schema (attr_for obj_type) (all_tokens obj_type sets)
      ≡ whole schema obj_type sets initial
unfolding parse_sets
parse_sets-whole schema obj_type sets w =
    rw
      (fix_parentheses-IsFixed (all_tokens obj_type sets)
        (all_tokens-IsFixed schema obj_type sets w))
      refl

parse_sets-written :
    (schema : Schema) (obj_type : ObjType) (sets : List RscSet)
    → All (IsWritable schema obj_type) sets
    → Chain obj_type sets
    → parse_sets schema (attr_for obj_type) (rsc_set_constraint obj_type sets) ≡ ok (normals sets)
unfolding rsc_set_constraint
parse_sets-written schema obj_type sets w c =
    elim (Bool-cases (is_degenerate obj_type (last_is_plain sets) (count_refs sets))) [
      | inl e ↦
          rw (e, rsc_set_constraint)
            (parse_sets-prefix schema obj_type sets w ∙ whole_first schema obj_type sets [] w c)
      | inr e ↦
          rw (e, rsc_set_constraint)
            (parse_sets-whole schema obj_type sets w ∙ whole_first schema obj_type sets [] w c)
    ]

-- The tokens are at least as many as the resources, and two more where the last set has brackets.
length-references : (o : Option Text) (rs : List Text) → length (references o rs) ≡ length rs
unfolding references
length-references o [] = refl
length-references o (r ∷ rs) = omega (arith, length-references o rs)

length-set_tokens :
    (obj_type : ObjType) (s : RscSet)
    → length (set_tokens obj_type s)
      ≡ length (open_tokens (without_requirement s) (without_sequence s))
        + (length s.refs + length (close_tokens (without_requirement s) (without_sequence s)))
unfolding set_tokens
length-set_tokens obj_type s = omega (
  arith,
  length-append {0} (open_tokens (without_requirement s) (without_sequence s)) (
      references (qualifier obj_type s) s.refs
      ++ close_tokens (without_requirement s) (without_sequence s)),
  length-append {0} (references (qualifier obj_type s) s.refs)
      (close_tokens (without_requirement s) (without_sequence s)),
  length-references (qualifier obj_type s) s.refs,
)

length-brackets :
    (ra sq : Bool)
    → (not sq && not ra) ≡ false
    → 2 ≤ length (open_tokens ra sq) + length (close_tokens ra sq)
unfolding open_tokens close_tokens
length-brackets true true h = omega arith
length-brackets true false h = omega arith
length-brackets false true h = omega arith
length-brackets false false h = cc

count_refs-le :
    (obj_type : ObjType) (sets : List RscSet) → count_refs sets ≤ length (all_tokens obj_type sets)
unfolding count_refs all_tokens
count_refs-le obj_type [] = omega arith
count_refs-le obj_type (s ∷ sets) = omega (
  arith,
  length-append {0} (set_tokens obj_type s) (all_tokens obj_type sets),
  length-set_tokens obj_type s,
  count_refs-le obj_type sets,
)

count_refs-bracketed :
    (obj_type : ObjType) (sets : List RscSet)
    → last_is_plain sets ≡ false
    → count_refs sets + 2 ≤ length (all_tokens obj_type sets)
unfolding count_refs all_tokens last_is_plain
count_refs-bracketed obj_type [] h = cc
count_refs-bracketed obj_type (s ∷ []) h = omega (
  arith,
  length-append {0} (set_tokens obj_type s) [],
  length-set_tokens obj_type s,
  length-brackets (without_requirement s) (without_sequence s) h,
)
count_refs-bracketed obj_type (s ∷ t ∷ sets) h = omega (
  arith,
  length-append {0} (set_tokens obj_type s) (all_tokens obj_type (t ∷ sets)),
  length-set_tokens obj_type s,
  count_refs-bracketed obj_type (t ∷ sets) h,
)

-- As many tokens as resources in a simple constraint never stand for sets.
two_tokens :
    (obj_type : ObjType) (sets : List RscSet)
    → (plain : Bool) → last_is_plain sets ≡ plain
    → 2 ≤ count_refs sets
    → (b : Bool) → (plain && leb (count_refs sets) 2) ≡ b
    → 2
      < length
          (if b then codes "_rsc_set_" ∷ all_tokens obj_type sets else all_tokens obj_type sets)
two_tokens obj_type sets plain p le true e = omega (arith, count_refs-le obj_type sets)
two_tokens obj_type sets true p le false e =
    omega (arith, leb→lt (count_refs sets) 2 e, count_refs-le obj_type sets)
two_tokens obj_type sets false p le false e = omega (arith, count_refs-bracketed obj_type sets p)

one_more_token :
    (obj_type : ObjType) (sets : List RscSet)
    → length (simple_names obj_type) ≤ count_refs sets
    → (not (is_empty (simple_names obj_type))
        && length (rsc_set_constraint obj_type sets) == length (simple_names obj_type))
      ≡ false
unfolding rsc_set_constraint is_degenerate
one_more_token location sets le = refl
one_more_token colocation sets le =
    let more = two_tokens colocation sets (last_is_plain sets) refl le _ refl in ground arith
one_more_token order sets le =
    let more = two_tokens order sets (last_is_plain sets) refl le _ refl in ground arith
one_more_token rsc_ticket sets le = let all = count_refs-le rsc_ticket sets in ground arith

sets_or_error-normals :
    (sets : List RscSet)
    → is_empty sets ≡ false
    → sets_or_error (normals sets) ≡ ok (resource_sets (normals sets))
sets_or_error-normals [] h = cc
sets_or_error-normals (s ∷ sets) h = refl

-- Resource sets are read back from the tokens that are written for them, with every set in its place
-- and its brackets, Booleans and qualifiers as they were, and are never taken for a simple
-- constraint. The Booleans come back in one spelling. The conditions: there are as many resources as
-- in a simple constraint of the type; each set has some, with plain names; a set has only the
-- attribute of the type of the constraint, in the spelling of the schema; and of two neighbouring
-- sets with no brackets the qualifiers differ.
pub match_resource_set-written :
    (schema : Schema) (obj_type : ObjType) (sets : List RscSet)
    → is_empty sets ≡ false
    → length (simple_names obj_type) ≤ count_refs sets
    → All (IsWritable schema obj_type) sets
    → Chain obj_type sets
    → match_resource_set schema obj_type (attr_for obj_type) (rsc_set_constraint obj_type sets)
      ≡ ok (resource_sets (normals sets))
unfolding match_resource_set
match_resource_set-written schema obj_type sets ne le w c =
    rw (one_more_token obj_type sets le, match_resource_set)
      (rw (parse_sets-written schema obj_type sets w c) (sets_or_error-normals sets ne))
