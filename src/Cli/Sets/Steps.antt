-- ===== src/Cli/Sets/Steps.antt =====
-- How `ResourceSet` of crmsh/parse.py takes the tokens of one set of `rsc_set_constraint`.
use crmsh.Prelude.{
  ℕ, ◌≡◌, refl, sym, ap, ◌∙◌, Bool, true, false, ◌||◌, not, Option, none, some, List, [], ◌∷◌, ◌++◌,
  append-nil, append_assoc, Text, same, same_refl, is_empty, All,
}
use crmsh.Prelude.Results.{Result, ok, ◌>>=◌, >>=-eq-ok, ok_inj}
use crmsh.Units.Booleans.{verify_boolean, one_of, is_boolean_true}
use crmsh.Units.Time.{lower}
use crmsh.Cli.Sets.Element.{RscSet, Qualifier, role_attr, action_attr, Schema, contains}
use crmsh.Cli.Sets.Format.{reference, references, open_tokens, close_tokens}
use crmsh.Cli.Sets.Parser.{
  SetError, State, current_set, save_set, parseattr, add_ref, parse_token, parse_tokens,
  open_bracket, close_bracket,
}
use crmsh.Cli.Sets.Words.{IsResource, Qualified, reference-IsRef, parse_token-IsRef}

abbrev pub state : List RscSet → List Text → Text → Option ℕ → Bool → Bool → State
state done refs q opened sequential require_all = record {
  cli_list = done;
  set_pl = refs;
  prev_q = q;
  curr_attr = not (is_empty q);
  opened = opened;
  sequential = sequential;
  require_all = require_all;
}

-- The set that is read where the two attributes are false, or not.
abbrev pub read_set : Qualifier → Bool → Bool → Text → List Text → RscSet
read_set q_attr require_all_false sequential_false q refs =
    current_set q_attr (state [] refs q none (not sequential_false) (not require_all_false))

pub parse_tokens-append :
    (schema : Schema) (q_attr : Qualifier) (xs ys : List Text) (st st' : State)
    → parse_tokens schema q_attr xs st ≡ ok st'
    → parse_tokens schema q_attr (xs ++ ys) st ≡ parse_tokens schema q_attr ys st'
unfolding parse_tokens
parse_tokens-append schema q_attr [] ys st st' h =
    ap (parse_tokens schema q_attr ys) (ok_inj st st' h)
parse_tokens-append schema q_attr (x ∷ xs) ys st st' h =
    let (st2, h1, k1) = >>=-eq-ok (parse_token schema q_attr x st) _ st' h in
    rw h1 (parse_tokens-append schema q_attr xs ys st2 st' k1)

add_ref-same :
    (q_attr : Qualifier) (r q : Text) (refs : List Text) (done : List RscSet) (opened : Option ℕ)
    (sq rq : Bool)
    → add_ref q_attr (r, q) (state done refs q opened sq rq)
      ≡ state done (refs ++ r ∷ []) q opened sq rq
unfolding add_ref
add_ref-same q_attr r q refs done opened sq rq = rw (same_refl q, add_ref) refl

add_ref-first :
    (q_attr : Qualifier) (r q : Text) (done : List RscSet) (opened : Option ℕ) (sq rq : Bool)
    → add_ref q_attr (r, q) (state done [] [] opened sq rq) ≡ state done (r ∷ []) q opened sq rq
unfolding add_ref save_set same
add_ref-first q_attr r [] done opened sq rq = refl
add_ref-first q_attr r (c ∷ q) done opened sq rq = refl

-- A set with another qualifier saves the set before it.
add_ref-next :
    (q_attr : Qualifier) (r q x p : Text) (xs : List Text) (done : List RscSet)
    → same q p ≡ false
    → add_ref q_attr (r, q) (state done (x ∷ xs) p none true true)
      ≡ state (done ++ read_set q_attr false false p (x ∷ xs) ∷ []) (r ∷ []) q none true true
unfolding add_ref save_set current_set
add_ref-next role_attr r q x p xs done ne = rw (ne, add_ref) refl
add_ref-next action_attr r q x p xs done ne = rw (ne, add_ref) refl

pub bind-ok :
    {A B : Type 0} (m : Result SetError A) (f : A → Result SetError B) (a : A)
    → m ≡ ok a
    → (m >>= f) ≡ f a
bind-ok m f a e = ap (λ x. x >>= f) e

-- The bracket that opens a set, and the one that closes it.
opening : Bool → ℕ
opening true = b'['
opening false = b'('

opens :
    (schema : Schema) (q_attr : Qualifier) (ra : Bool) (done : List RscSet)
    → parse_token schema q_attr (opening ra ∷ []) (state done [] [] none true true)
      ≡ ok (state done [] [] (some (opening ra)) false (not ra))
unfolding opening parse_token save_set open_bracket same
opens schema q_attr true done = refl
opens schema q_attr false done = refl

opens_behind :
    (schema : Schema) (q_attr : Qualifier) (ra : Bool) (x p : Text) (xs : List Text)
    (done : List RscSet)
    → parse_token schema q_attr (opening ra ∷ []) (state done (x ∷ xs) p none true true)
      ≡ ok (
          state
            (done ++ read_set q_attr false false p (x ∷ xs) ∷ [])
            []
            []
            (some (opening ra))
            false
            (not ra))
unfolding opening parse_token save_set current_set open_bracket same
opens_behind schema role_attr true x p xs done = refl
opens_behind schema role_attr false x p xs done = refl
opens_behind schema action_attr true x p xs done = refl
opens_behind schema action_attr false x p xs done = refl

closes :
    (schema : Schema) (q_attr : Qualifier) (ra sq : Bool) (r q : Text) (rs : List Text)
    (done : List RscSet)
    → (ra || sq) ≡ true
    → parse_tokens schema q_attr
        (close_tokens ra sq)
        (state done (r ∷ rs) q (some (opening ra)) false (not ra))
      ≡ ok (state (done ++ read_set q_attr ra sq q (r ∷ rs) ∷ []) [] [] none true true)
unfolding opening parse_tokens close_tokens parse_token save_set current_set close_bracket same
    contains parseattr verify_boolean one_of lower is_boolean_true
closes schema role_attr true true r q rs done e = refl
closes schema role_attr true false r q rs done e = refl
closes schema role_attr false true r q rs done e = refl
closes schema action_attr true true r q rs done e = refl
closes schema action_attr true false r q rs done e = refl
closes schema action_attr false true r q rs done e = refl
closes schema q_attr false false r q rs done e = cc

open_tokens-bracketed :
    (ra sq : Bool) → (ra || sq) ≡ true → open_tokens ra sq ≡ (opening ra ∷ []) ∷ []
unfolding open_tokens opening
open_tokens-bracketed true sq e = refl
open_tokens-bracketed false true e = refl
open_tokens-bracketed false false e = cc

module _ (schema : Schema) (q_attr : Qualifier) (o : Option Text) (q : Text)
    (is_q : Qualified schema q_attr o q) where
  -- The first of some references.
  one_reference :
      (r : Text) (rs : List Text) (st st' : State)
      → IsResource r
      → add_ref q_attr (r, q) st ≡ st'
      → parse_tokens schema q_attr (references o (r ∷ rs)) st
        ≡ parse_tokens schema q_attr (references o rs) st'
  unfolding parse_tokens references
  one_reference r rs st st' is_r e =
      bind-ok (parse_token schema q_attr (reference o r) st)
        (parse_tokens schema q_attr (references o rs)) st'
        (parse_token-IsRef schema q_attr (reference o r) r q st
            (reference-IsRef schema q_attr o r q is_q is_r)
          ∙ ap ok e)

  -- More references of a set.
  more_references :
      (rs refs : List Text) (done : List RscSet) (opened : Option ℕ) (sq rq : Bool)
      → All IsResource rs
      → parse_tokens schema q_attr (references o rs) (state done refs q opened sq rq)
        ≡ ok (state done (refs ++ rs) q opened sq rq)
  unfolding parse_tokens references
  more_references [] refs done opened sq rq h =
      ap (λ x. ok (state done x q opened sq rq)) (sym (append-nil refs))
  more_references (r ∷ rs) refs done opened sq rq h =
      one_reference r rs (state done refs q opened sq rq)
        (state done (refs ++ r ∷ []) q opened sq rq) h.0
        (add_ref-same q_attr r q refs done opened sq rq)
      ∙ more_references rs (refs ++ r ∷ []) done opened sq rq h.1
      ∙ ap (λ x. ok (state done x q opened sq rq)) (append_assoc refs (r ∷ []) rs)

  -- The references of a set that starts.
  first_references :
      (r : Text) (rs : List Text) (done : List RscSet) (opened : Option ℕ) (sq rq : Bool)
      → All IsResource (r ∷ rs)
      → parse_tokens schema q_attr (references o (r ∷ rs)) (state done [] [] opened sq rq)
        ≡ ok (state done (r ∷ rs) q opened sq rq)
  first_references r rs done opened sq rq h =
      one_reference r rs (state done [] [] opened sq rq) (state done (r ∷ []) q opened sq rq) h.0
        (add_ref-first q_attr r q done opened sq rq)
      ∙ more_references rs (r ∷ []) done opened sq rq h.1

  -- ... behind a set with another qualifier.
  next_references :
      (r x : Text) (rs xs : List Text) (p : Text) (done : List RscSet)
      → same q p ≡ false
      → All IsResource (r ∷ rs)
      → parse_tokens schema q_attr (references o (r ∷ rs)) (state done (x ∷ xs) p none true true)
        ≡ ok (state (done ++ read_set q_attr false false p (x ∷ xs) ∷ []) (r ∷ rs) q none true true)
  next_references r x rs xs p done ne h =
      one_reference r rs (state done (x ∷ xs) p none true true) _ h.0
        (add_ref-next q_attr r q x p xs done ne)
      ∙ more_references rs (r ∷ []) (done ++ read_set q_attr false false p (x ∷ xs) ∷ []) none true
          true h.1

  -- A set in brackets, from where the bracket has opened.
  bracketed_set :
      (ra sq : Bool) (r : Text) (rs : List Text) (done : List RscSet)
      → (ra || sq) ≡ true
      → All IsResource (r ∷ rs)
      → parse_tokens schema q_attr
          (references o (r ∷ rs) ++ close_tokens ra sq)
          (state done [] [] (some (opening ra)) false (not ra))
        ≡ ok (state (done ++ read_set q_attr ra sq q (r ∷ rs) ∷ []) [] [] none true true)
  bracketed_set ra sq r rs done e h =
      parse_tokens-append schema q_attr (references o (r ∷ rs)) (close_tokens ra sq) _
        (state done (r ∷ rs) q (some (opening ra)) false (not ra))
        (first_references r rs done (some (opening ra)) false (not ra) h)
      ∙ closes schema q_attr ra sq r q rs done e

  one_token :
      (p : Text) (tokens : List Text) (st st' : State)
      → parse_token schema q_attr p st ≡ ok st'
      → parse_tokens schema q_attr (p ∷ tokens) st ≡ parse_tokens schema q_attr tokens st'
  unfolding parse_tokens
  one_token p tokens st st' e =
      bind-ok (parse_token schema q_attr p st) (parse_tokens schema q_attr tokens) st' e

  -- The tokens of a set.
  abbrev pub tokens_of : Bool → Bool → List Text → List Text
  tokens_of ra sq rs = open_tokens ra sq ++ (references o rs ++ close_tokens ra sq)

  bracketed_first :
      (ra sq : Bool) (r : Text) (rs : List Text) (done : List RscSet)
      → (ra || sq) ≡ true
      → All IsResource (r ∷ rs)
      → parse_tokens schema q_attr (tokens_of ra sq (r ∷ rs)) (state done [] [] none true true)
        ≡ ok (state (done ++ read_set q_attr ra sq q (r ∷ rs) ∷ []) [] [] none true true)
  bracketed_first ra sq r rs done e h =
      ap
        (λ t.
          parse_tokens schema q_attr (t ++ (references o (r ∷ rs) ++ close_tokens ra sq))
            (state done [] [] none true true))
        (open_tokens-bracketed ra sq e)
      ∙ one_token (opening ra ∷ []) (references o (r ∷ rs) ++ close_tokens ra sq) _ _
          (opens schema q_attr ra done)
      ∙ bracketed_set ra sq r rs done e h

  bracketed_next :
      (ra sq : Bool) (r x p : Text) (rs xs : List Text) (done : List RscSet)
      → (ra || sq) ≡ true
      → All IsResource (r ∷ rs)
      → parse_tokens schema q_attr (tokens_of ra sq (r ∷ rs)) (state done (x ∷ xs) p none true true)
        ≡ ok (
            state
              ((done ++ read_set q_attr false false p (x ∷ xs) ∷ [])
                ++ read_set q_attr ra sq q (r ∷ rs) ∷ [])
              []
              []
              none
              true
              true)
  bracketed_next ra sq r x p rs xs done e h =
      ap
        (λ t.
          parse_tokens schema q_attr (t ++ (references o (r ∷ rs) ++ close_tokens ra sq))
            (state done (x ∷ xs) p none true true))
        (open_tokens-bracketed ra sq e)
      ∙ one_token (opening ra ∷ []) (references o (r ∷ rs) ++ close_tokens ra sq) _ _
          (opens_behind schema q_attr ra x p xs done)
      ∙ bracketed_set ra sq r rs (done ++ read_set q_attr false false p (x ∷ xs) ∷ []) e h

  -- The four ways in which the tokens of a set are taken: with brackets or without, and with no set
  -- before it or behind a set with no brackets.
  pub bracketed_tokens :
      (ra sq : Bool) (rs : List Text) (done : List RscSet)
      → (ra || sq) ≡ true
      → is_empty rs ≡ false
      → All IsResource rs
      → parse_tokens schema q_attr (tokens_of ra sq rs) (state done [] [] none true true)
        ≡ ok (state (done ++ read_set q_attr ra sq q rs ∷ []) [] [] none true true)
  bracketed_tokens ra sq [] done e ne h = cc
  bracketed_tokens ra sq (r ∷ rs) done e ne h = bracketed_first ra sq r rs done e h

  pub bracketed_tokens_behind :
      (ra sq : Bool) (rs xs : List Text) (p : Text) (done : List RscSet)
      → (ra || sq) ≡ true
      → is_empty rs ≡ false
      → is_empty xs ≡ false
      → All IsResource rs
      → parse_tokens schema q_attr (tokens_of ra sq rs) (state done xs p none true true)
        ≡ ok (
            state
              ((done ++ read_set q_attr false false p xs ∷ []) ++ read_set q_attr ra sq q rs ∷ [])
              []
              []
              none
              true
              true)
  bracketed_tokens_behind ra sq [] xs p done e ne nx h = cc
  bracketed_tokens_behind ra sq (r ∷ rs) [] p done e ne nx h = cc
  bracketed_tokens_behind ra sq (r ∷ rs) (x ∷ xs) p done e ne nx h =
      bracketed_next ra sq r x p rs xs done e h

  pub plain_tokens :
      (ra sq : Bool) (rs : List Text) (done : List RscSet)
      → (ra || sq) ≡ false
      → is_empty rs ≡ false
      → All IsResource rs
      → parse_tokens schema q_attr (tokens_of ra sq rs) (state done [] [] none true true)
        ≡ ok (state done rs q none true true)
  unfolding open_tokens close_tokens
  plain_tokens true sq rs done e ne h = cc
  plain_tokens false true rs done e ne h = cc
  plain_tokens false false [] done e ne h = cc
  plain_tokens false false (r ∷ rs) done e ne h =
      ap (λ t. parse_tokens schema q_attr t (state done [] [] none true true))
        (append-nil (references o (r ∷ rs)))
      ∙ first_references r rs done none true true h

  pub plain_tokens_behind :
      (ra sq : Bool) (rs xs : List Text) (p : Text) (done : List RscSet)
      → (ra || sq) ≡ false
      → is_empty rs ≡ false
      → is_empty xs ≡ false
      → same q p ≡ false
      → All IsResource rs
      → parse_tokens schema q_attr (tokens_of ra sq rs) (state done xs p none true true)
        ≡ ok (state (done ++ read_set q_attr false false p xs ∷ []) rs q none true true)
  unfolding open_tokens close_tokens
  plain_tokens_behind true sq rs xs p done e ne nx d h = cc
  plain_tokens_behind false true rs xs p done e ne nx d h = cc
  plain_tokens_behind false false [] xs p done e ne nx d h = cc
  plain_tokens_behind false false (r ∷ rs) [] p done e ne nx d h = cc
  plain_tokens_behind false false (r ∷ rs) (x ∷ xs) p done e ne nx d h =
      ap (λ t. parse_tokens schema q_attr t (state done (x ∷ xs) p none true true))
        (append-nil (references o (r ∷ rs)))
      ∙ next_references r x rs xs p done d h
