-- ===== src/Cli/Sets/RoundTrip.antt =====
-- `ResourceSet` of crmsh/parse.py reads what `rsc_set_constraint` of crmsh/cliformat.py writes.
use crmsh.Prelude.{
  ◌≡◌, refl, sym, ap, ◌∙◌, Bool, true, false, ◌||◌, not, Option, none, some, List, [], ◌∷◌, ◌++◌,
  append-nil, append_assoc, if◌then◌else◌, arith, Text, same, is_empty, All, Bool-cases, inl, inr,
  truthy,
}
use crmsh.Prelude.Results.{Result, ok, ◌>>=◌}
use crmsh.Cli.Sets.Element.{
  RscSet, ObjType, location, colocation, order, rsc_ticket, Qualifier, role_attr, action_attr,
  Schema,
}
use crmsh.Cli.Sets.Format.{
  boolean_maybe, is_false, qualifier, references, open_tokens, close_tokens, set_tokens, all_tokens,
}
use crmsh.Cli.Sets.Parser.{
  SetError, State, false_unless, current_set, save_set, parse_tokens, finish_sets,
}
use crmsh.Cli.Sets.Words.{IsResource, Qualified, by_schema}
use crmsh.Cli.Sets.Steps.{
  state, read_set, parse_tokens-append, bracketed_tokens, bracketed_tokens_behind, plain_tokens,
  plain_tokens_behind,
}

-- Which of the two attributes a constraint of the type has: the argument of `ResourceSet`.
abbrev pub attr_for : ObjType → Qualifier
attr_for location = role_attr
attr_for colocation = role_attr
attr_for order = action_attr
attr_for rsc_ticket = role_attr

abbrev pub attribute : Qualifier → RscSet → Option Text
attribute role_attr s = s.role
attribute action_attr s = s.action

abbrev pub other_attribute : Qualifier → RscSet → Option Text
other_attribute role_attr s = s.action
other_attribute action_attr s = s.role

abbrev pub text_of : Option Text → Text
text_of none = []
text_of (some q) = q

abbrev pub without_requirement : RscSet → Bool
without_requirement s = is_false (boolean_maybe s.require_all)

abbrev pub without_sequence : RscSet → Bool
without_sequence s = is_false (boolean_maybe s.sequential)

abbrev pub is_bracketed : RscSet → Bool
is_bracketed s = without_requirement s || without_sequence s

-- A set that the command line can say: it has resources, with plain names, and only the attribute of
-- the type of the constraint, with a value that the schema has in this spelling.
pub record IsWritable (schema : Schema) (obj_type : ObjType) (s : RscSet) : Type 0 where
  pub is_qualified :
      Qualified schema
        (attr_for obj_type)
        (attribute (attr_for obj_type) s)
        (text_of (attribute (attr_for obj_type) s))
  pub no_other : other_attribute (attr_for obj_type) s ≡ none
  pub nonempty : is_empty s.refs ≡ false
  pub resources : All IsResource s.refs

-- Two sets with no brackets and one qualifier would run together.
abbrev pub Apart : ObjType → RscSet → RscSet → Type 0
Apart obj_type s t =
    (is_bracketed s
      || (is_bracketed t
          || not (
              same (text_of (attribute (attr_for obj_type) t))
                (text_of (attribute (attr_for obj_type) s)))))
    ≡ true

abbrev pub Chain : ObjType → List RscSet → Type 0
Chain obj_type [] = Unit
Chain obj_type (s ∷ []) = Unit
Chain obj_type (s ∷ t ∷ sets) = Apart obj_type s t × Chain obj_type (t ∷ sets)

-- A set with its Booleans in the one spelling that is written: `false`, or nothing for `true`.
abbrev pub normal : RscSet → RscSet
normal s = record s {
  require_all = false_unless (not (without_requirement s));
  sequential = false_unless (not (without_sequence s));
}

abbrev pub normals : List RscSet → List RscSet
normals [] = []
normals (s ∷ sets) = normal s ∷ normals sets

nonempty-cons :
    (rs : List Text) → is_empty rs ≡ false → (r : Text) × (rs' : List Text) × (rs ≡ r ∷ rs')
nonempty-cons [] h = cc
nonempty-cons (r ∷ rs) h = (r, rs, refl)

unless_empty :
    (schema : Schema) (q_attr : Qualifier) (o : Option Text) (q : Text)
    → Qualified schema q_attr o q
    → (if not (is_empty q) then some q else none) ≡ o
unless_empty schema q_attr none [] h = refl
unless_empty schema q_attr none (c ∷ q) h = elim h [ ]
unless_empty schema q_attr (some q) q' (by_schema is_q e) = rw (is_q.0) refl

action_first :
    (schema : Schema) (q_attr : Qualifier) (a r : Option Text) (q : Text)
    → Qualified schema q_attr a q
    → r ≡ none
    → (if truthy a then a else r) ≡ a
unfolding truthy
action_first schema q_attr none r q h e = e
action_first schema q_attr (some []) r q (by_schema is_q x) e = cc (is_q.0)
action_first schema q_attr (some (c ∷ a)) r q h e = refl

qualifier-attribute :
    (schema : Schema) (obj_type : ObjType) (s : RscSet)
    → IsWritable schema obj_type s
    → qualifier obj_type s ≡ attribute (attr_for obj_type) s
unfolding qualifier
qualifier-attribute schema location s w = refl
qualifier-attribute schema colocation s w = refl
qualifier-attribute schema rsc_ticket s w = refl
qualifier-attribute schema order s w =
    action_first schema action_attr s.action s.role (text_of s.action) w.is_qualified w.no_other

normal-read_set :
    (schema : Schema) (q_attr : Qualifier) (s : RscSet)
    → Qualified schema q_attr (attribute q_attr s) (text_of (attribute q_attr s))
    → other_attribute q_attr s ≡ none
    → read_set q_attr
        (without_requirement s)
        (without_sequence s)
        (text_of (attribute q_attr s))
        s.refs
      ≡ normal s
unfolding current_set
normal-read_set schema role_attr s is_q e = λ i. record (normal s) {
  role = unless_empty schema role_attr s.role (text_of s.role) is_q i;
  action = sym e i;
}
normal-read_set schema action_attr s is_q e = λ i. record (normal s) {
  action = unless_empty schema action_attr s.action (text_of s.action) is_q i;
  role = sym e i;
}

pub set_tokens-tokens_of :
    (schema : Schema) (obj_type : ObjType) (s : RscSet)
    → IsWritable schema obj_type s
    → set_tokens obj_type s
      ≡ open_tokens (without_requirement s) (without_sequence s)
        ++ (references (attribute (attr_for obj_type) s) s.refs
            ++ close_tokens (without_requirement s) (without_sequence s))
unfolding set_tokens
set_tokens-tokens_of schema obj_type s w =
    ap
      (λ o.
        open_tokens (without_requirement s) (without_sequence s)
        ++ (references o s.refs ++ close_tokens (without_requirement s) (without_sequence s)))
      (qualifier-attribute schema obj_type s w)

finish_behind :
    (q_attr : Qualifier) (xs : List Text) (p : Text) (done : List RscSet)
    → is_empty xs ≡ false
    → finish_sets q_attr (state done xs p none true true)
      ≡ ok (done ++ read_set q_attr false false p xs ∷ [])
unfolding finish_sets save_set current_set
finish_behind q_attr [] p done ne = cc
finish_behind role_attr (x ∷ xs) p done ne = refl
finish_behind action_attr (x ∷ xs) p done ne = refl

-- What the whole parse makes of the tokens of a set, from a state with no set open.
module _ (schema : Schema) (obj_type : ObjType) where
  abbrev q_attr : Qualifier
  q_attr = attr_for obj_type

  abbrev word_of : RscSet → Text
  word_of s = text_of (attribute q_attr s)

  -- What is read of sets from a state, to the end.
  abbrev pub whole : List RscSet → State → Result SetError (List RscSet)
  whole sets st = parse_tokens schema q_attr (all_tokens obj_type sets) st >>= finish_sets q_attr

  one_set :
      (s : RscSet) (sets : List RscSet) (st st' : State)
      → IsWritable schema obj_type s
      → parse_tokens schema q_attr
          (open_tokens (without_requirement s) (without_sequence s)
            ++ (references (attribute q_attr s) s.refs
                ++ close_tokens (without_requirement s) (without_sequence s)))
          st
        ≡ ok st'
      → whole (s ∷ sets) st ≡ whole sets st'
  unfolding all_tokens
  one_set s sets st st' w e =
      ap (λ m. m >>= finish_sets q_attr)
        (parse_tokens-append schema q_attr (set_tokens obj_type s) (all_tokens obj_type sets) st st'
          (ap (λ t. parse_tokens schema q_attr t st) (set_tokens-tokens_of schema obj_type s w)
            ∙ e))

  -- The set that waits to be saved is not continued by the next one.
  abbrev Behind : Text → List RscSet → Type 0
  Behind p [] = Unit
  Behind p (s ∷ sets) = (is_bracketed s || not (same (word_of s) p)) ≡ true

  Chain-Behind :
      (s : RscSet) (sets : List RscSet)
      → Chain obj_type (s ∷ sets)
      → is_bracketed s ≡ false
      → Behind (word_of s) sets
  Chain-Behind s [] c e = tt
  Chain-Behind s (t ∷ sets) c e = rw e at c.0

  Chain-rest : (s : RscSet) (sets : List RscSet) → Chain obj_type (s ∷ sets) → Chain obj_type sets
  Chain-rest s [] c = tt
  Chain-rest s (t ∷ sets) c = c.1

  abbrev plain_set : Text → List Text → RscSet
  plain_set p xs = read_set q_attr false false p xs

  both_false : (a b : Bool) → (a || b) ≡ false → (a ≡ false) × (b ≡ false)
  both_false true b e = cc
  both_false false b e = (refl, e)

  saved-normal :
      (s : RscSet)
      → IsWritable schema obj_type s
      → read_set q_attr (without_requirement s) (without_sequence s) (word_of s) s.refs ≡ normal s
  saved-normal s w = normal-read_set schema q_attr s w.is_qualified w.no_other

  plain-normal :
      (s : RscSet)
      → IsWritable schema obj_type s
      → is_bracketed s ≡ false
      → plain_set (word_of s) s.refs ≡ normal s
  plain-normal s w e =
      let (ra, sq) = both_false (without_requirement s) (without_sequence s) e in
      ap (λ b. read_set q_attr b false (word_of s) s.refs) (sym ra)
      ∙ ap (λ b. read_set q_attr (without_requirement s) b (word_of s) s.refs) (sym sq)
      ∙ saved-normal s w

  apart_words :
      (s : RscSet) (p : Text)
      → is_bracketed s ≡ false
      → Behind p (s ∷ [])
      → same (word_of s) p ≡ false
  apart_words s p e b = ground (arith, e, b)

  rest_nil : (s : RscSet) (done ns : List RscSet) → (done ++ s ∷ []) ++ ns ≡ done ++ (s ∷ ns)
  rest_nil s done ns = append_assoc done (s ∷ []) ns

  -- The end of the tokens.
  finish_first :
      (done : List RscSet) → finish_sets q_attr (state done [] [] none true true) ≡ ok done
  unfolding finish_sets save_set
  finish_first done = refl

  whole_nil : (st : State) → whole [] st ≡ finish_sets q_attr st
  unfolding all_tokens parse_tokens
  whole_nil st = refl

  mutual
    pub whole_first :
        (sets done : List RscSet)
        → All (IsWritable schema obj_type) sets
        → Chain obj_type sets
        → whole sets (state done [] [] none true true) ≡ ok (done ++ normals sets)
    whole_first [] done w c =
        whole_nil (state done [] [] none true true)
        ∙ finish_first done
        ∙ ap ok (sym (append-nil done))
    whole_first (s ∷ sets) done w c = elim (Bool-cases (is_bracketed s)) [
      | inl e ↦
          one_set s sets (state done [] [] none true true) _ w.0 (
            bracketed_tokens schema q_attr (attribute q_attr s) (word_of s) w.0.is_qualified
              (without_requirement s) (without_sequence s) s.refs done e w.0.nonempty w.0.resources)
          ∙ whole_first sets
              (done
                ++ read_set q_attr (without_requirement s) (without_sequence s) (word_of s) s.refs
                  ∷ [])
              w.1 (Chain-rest s sets c)
          ∙ ap (λ x. ok ((done ++ x ∷ []) ++ normals sets)) (saved-normal s w.0)
          ∙ ap ok (rest_nil (normal s) done (normals sets))
      | inr e ↦
          one_set s sets (state done [] [] none true true) _ w.0 (
            plain_tokens schema q_attr (attribute q_attr s) (word_of s) w.0.is_qualified
              (without_requirement s) (without_sequence s) s.refs done e w.0.nonempty w.0.resources)
          ∙ whole-Behind sets done s.refs (word_of s) w.1 (Chain-rest s sets c) w.0.nonempty
              (Chain-Behind s sets c e)
          ∙ ap (λ x. ok ((done ++ x ∷ []) ++ normals sets)) (plain-normal s w.0 e)
          ∙ ap ok (rest_nil (normal s) done (normals sets))
    ]

    whole-Behind :
        (sets done : List RscSet) (xs : List Text) (p : Text)
        → All (IsWritable schema obj_type) sets
        → Chain obj_type sets
        → is_empty xs ≡ false
        → Behind p sets
        → whole sets (state done xs p none true true)
          ≡ ok ((done ++ plain_set p xs ∷ []) ++ normals sets)
    whole-Behind [] done xs p w c ne b =
        whole_nil (state done xs p none true true)
        ∙ finish_behind q_attr xs p done ne
        ∙ ap ok (sym (append-nil (done ++ plain_set p xs ∷ [])))
    whole-Behind (s ∷ sets) done xs p w c ne b = elim (Bool-cases (is_bracketed s)) [
      | inl e ↦
          one_set s sets (state done xs p none true true) _ w.0 (
            bracketed_tokens_behind schema q_attr (attribute q_attr s) (word_of s) w.0.is_qualified
              (without_requirement s) (without_sequence s) s.refs xs p done e w.0.nonempty ne
              w.0.resources)
          ∙ whole_first sets
              ((done ++ plain_set p xs ∷ [])
                ++ read_set q_attr (without_requirement s) (without_sequence s) (word_of s) s.refs
                  ∷ [])
              w.1 (Chain-rest s sets c)
          ∙ ap (λ x. ok (((done ++ plain_set p xs ∷ []) ++ x ∷ []) ++ normals sets))
              (saved-normal s w.0)
          ∙ ap ok (rest_nil (normal s) (done ++ plain_set p xs ∷ []) (normals sets))
      | inr e ↦
          one_set s sets (state done xs p none true true) _ w.0 (
            plain_tokens_behind schema q_attr (attribute q_attr s) (word_of s) w.0.is_qualified
              (without_requirement s) (without_sequence s) s.refs xs p done e w.0.nonempty ne
              (apart_words s p e b) w.0.resources)
          ∙ whole-Behind sets (done ++ plain_set p xs ∷ []) s.refs (word_of s) w.1
              (Chain-rest s sets c) w.0.nonempty (Chain-Behind s sets c e)
          ∙ ap (λ x. ok (((done ++ plain_set p xs ∷ []) ++ x ∷ []) ++ normals sets))
              (plain-normal s w.0 e)
          ∙ ap ok (rest_nil (normal s) (done ++ plain_set p xs ∷ []) (normals sets))
    ]
