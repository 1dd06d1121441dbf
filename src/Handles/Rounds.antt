-- ===== src/Handles/Rounds.antt =====
-- The fuel of `parse` in crmsh/handles.py is enough.
use crmsh.Prelude.{
  ℕ, zero, suc, ◌+◌, ◌≤◌, ◌<◌, ◌≡◌, refl, ap, subst, Bool, true, false, Option, none, some, List,
  [], ◌∷◌, ◌++◌, arith, ◌==◌, if◌then◌else◌, length, Text, codes, is_empty, strip_prefix,
  Option-cases, Bool-cases, inl, inr,
}
use mathlib.Core.Option.{some_inj}
use crmsh.Prelude.Results.{Result, ok, err, ◌>>=◌}
use crmsh.Units.Time.{span}
use crmsh.Handles.Values.{
  Obj, nothing, boolean, text, list, dict, called, Objs, nil, cons, Dict, Error, no_get, not_set,
  unclosed, too_long, follow, accept, resolve, push, is_falsy,
}
use crmsh.Handles.Template.{
  Tag, plain, block, invert, Head, is_key_char, key_at, or_else_head, tagged_key, head_at,
  search_head, find_tag, split_key, ends_line, Render, render_all, render_block, render_inverted,
  before_body, after_body, close_tag, expand, parse_loop, parse,
}

-- The result is not the end of the fuel.
abbrev pub Ends : {A : Type 0} → Result Error A → Type 0
Ends (ok a) = Unit
Ends (err no_get) = Unit
Ends (err not_set) = Unit
Ends (err unclosed) = Unit
Ends (err too_long) = ⊥

Ends-bind :
    {A B : Type 0} (m : Result Error A) (f : A → Result Error B)
    → Ends m
    → ((a : A) → m ≡ ok a → Ends (f a))
    → Ends (m >>= f)
Ends-bind (ok a) f e g = g a refl
Ends-bind (err no_get) f e g = tt
Ends-bind (err not_set) f e g = tt
Ends-bind (err unclosed) f e g = tt
Ends-bind (err too_long) f e g = e

length-strip_prefix :
    (p s rest : Text) → strip_prefix p s ≡ some rest → length s ≡ length p + length rest
unfolding strip_prefix
length-strip_prefix [] s rest h = omega (arith, ap length (some_inj.0 h))
length-strip_prefix (x ∷ p) [] rest h = cc
length-strip_prefix (x ∷ p) (y ∷ s) rest h = elim (Bool-cases (x == y)) [
  | inl e ↦ omega (arith, length-strip_prefix p s rest (rw e at h))
  | inr e ↦ cc (rw e at h)
]

length-span : (p : ℕ → Bool) (s : Text) → length (span p s).0 + length (span p s).1 ≡ length s
unfolding span
length-span p [] = omega arith
length-span p (c ∷ s) = elim (Bool-cases (p c)) [
  | inl e ↦ rw e (omega (arith, length-span p s))
  | inr e ↦ rw e (omega arith)
]

-- A match leaves less than the text that it was found in.
abbrev Shorter : Text → Option Head → Type 0
Shorter s none = Unit
Shorter s (some h) = length h.after ≤ length s

key_at-Shorter : (tag : Tag) (s : Text) → Shorter s (key_at tag s)
unfolding key_at
key_at-Shorter tag s = elim (Bool-cases (is_empty (span is_key_char s).0)) [
  | inl e ↦ rw e tt
  | inr e ↦ elim (Option-cases (strip_prefix (codes "}}") (span is_key_char s).1)) [
    | inl e' ↦ rw (e, e') tt
    | inr (after, e') ↦
        rw (e, e')
          (omega (
            arith,
            length-span is_key_char s,
            length-strip_prefix (codes "}}") (span is_key_char s).1 after e',
          ))
  ]
]

or_else_head-Shorter :
    (s : Text) (o o' : Option Head) → Shorter s o → Shorter s o' → Shorter s (or_else_head o o')
or_else_head-Shorter s none o' h h' = h'
or_else_head-Shorter s (some x) o' h h' = h

Shorter-cons : (c : ℕ) (s : Text) (o : Option Head) → Shorter s o → Shorter (c ∷ s) o
Shorter-cons c s none h = tt
Shorter-cons c s (some x) h = omega arith

Shorter-if :
    (b : Bool) (s : Text) (o o' : Option Head)
    → Shorter s o
    → Shorter s o'
    → Shorter s (if b then o else o')
Shorter-if true s o o' h h' = h
Shorter-if false s o o' h h' = h'

tagged_key-Shorter : (s : Text) → Shorter s (tagged_key s)
unfolding tagged_key
tagged_key-Shorter [] = tt
tagged_key-Shorter (c ∷ s) =
    Shorter-if (c == b'#') (c ∷ s) _ _
      (or_else_head-Shorter (c ∷ s) (key_at block s) (key_at plain (c ∷ s))
        (Shorter-cons c s _ (key_at-Shorter block s)) (key_at-Shorter plain (c ∷ s)))
      (Shorter-if (c == b'^') (c ∷ s) _ _ (Shorter-cons c s _ (key_at-Shorter invert s))
        (key_at-Shorter plain (c ∷ s)))

some-Shorter :
    (s : Text) (o : Option Head) (h : Head) → Shorter s o → o ≡ some h → length h.after ≤ length s
some-Shorter s o h sh e = subst (Shorter s) e sh

head_at-less : (s : Text) (h : Head) → head_at s ≡ some h → suc (length h.after) ≤ length s
unfolding head_at
head_at-less s h e = elim (Option-cases (strip_prefix (codes "{{") s)) [
  | inl no_brace ↦ cc (rw (no_brace, head_at) at e)
  | inr (rest, e') ↦ omega (
    arith,
    length-strip_prefix (codes "{{") s rest e',
    some-Shorter rest (tagged_key rest) h (tagged_key-Shorter rest) (rw (e', head_at) at e),
  )
]

search_head-less :
    (s before : Text) (h : Head)
    → search_head s ≡ some (before, h)
    → suc (length h.after) ≤ length s
unfolding search_head
search_head-less [] before h e = cc
search_head-less (c ∷ s) before h e = elim (Option-cases (head_at (c ∷ s))) [
  | inr (h', e') ↦
      subst (λ x. suc (length x.after) ≤ suc (length s))
        (ap (λ p. p.1) (some_inj.0 (rw (e', search_head) at e))) (head_at-less (c ∷ s) h' e')
  | inl e' ↦ elim (Option-cases (search_head s)) [
    | inl none_left ↦ cc (rw (e', none_left, search_head) at e)
    | inr (r, e2) ↦
        subst (λ x. suc (length x.after) ≤ suc (length s))
          (ap (λ p. p.1) (some_inj.0 (rw (e2, search_head) at (rw (e', search_head) at e))))
          (omega (arith, search_head-less s r.0 r.1 e2))
  ]
]

find_tag-less :
    (tag s body rest : Text)
    → find_tag tag s ≡ some (body, rest)
    → (length body ≤ length s) × (length rest ≤ length s)
unfolding find_tag
find_tag-less tag [] body rest e = cc
find_tag-less tag (c ∷ s) body rest e = elim (Option-cases (strip_prefix tag (c ∷ s))) [
  | inr (after, e') ↦
      let q : ([], after) ≡ (body, rest) = some_inj.0 (rw (e', find_tag) at e) in
      (
        omega (arith, ap (λ p. length p.0) q),
        omega (arith, ap (λ p. length p.1) q, length-strip_prefix tag (c ∷ s) after e'),
      )
  | inl e' ↦ elim (Option-cases (find_tag tag s)) [
    | inl none_left ↦ cc (rw (none_left, find_tag) at (rw (e', find_tag) at e))
    | inr (r, e2) ↦
        let q : (c ∷ r.0, r.1) ≡ (body, rest) =
          some_inj.0 (rw (e2, find_tag) at (rw (e', find_tag) at e)) in
        let (lb, lr) = find_tag-less tag s r.0 r.1 e2 in
        (omega (arith, ap (λ p. length p.0) q), omega (arith, ap (λ p. length p.1) q))
  ]
]

follow-Ends : (r : List Text) (p : Obj) → Ends (follow r p)
unfolding follow
follow-Ends [] p = tt
follow-Ends (x ∷ r) nothing = tt
follow-Ends (x ∷ r) (dict d) = follow-Ends r _
follow-Ends (x ∷ r) (called d v) = follow-Ends r _
follow-Ends (x ∷ r) (boolean b) = tt
follow-Ends (x ∷ r) (text s) = tt
follow-Ends (x ∷ r) (list xs) = tt

accepted-Ends :
    (o : Option Obj) (m : Result Error Obj)
    → Ends m
    → Ends (elim o as (λ x. Result Error Obj) [ some v ↦ ok v | none ↦ m ])
accepted-Ends (some v) m e = tt
accepted-Ends none m e = e

resolve-Ends :
    (path : List Text) (context : List Dict) (strict : Bool) → Ends (resolve path context strict)
unfolding resolve
resolve-Ends path [] true = tt
resolve-Ends path [] false = tt
resolve-Ends path (values ∷ context) strict =
    Ends-bind (follow path (dict values)) _ (follow-Ends path (dict values)) (λ found e.
      accepted-Ends (accept strict found) (resolve path context strict)
        (resolve-Ends path context strict))

module _ (render : Render) (fine : (context : List Dict) → Ends (render context)) where
  render_all-Ends :
      (path : List Text) (context : List Dict) (xs : Objs)
      → Ends (render_all render path context xs)
  unfolding render_all
  render_all-Ends path context nil = tt
  render_all-Ends path context (cons it xs) =
      Ends-bind (render (push path it context)) _ (fine (push path it context)) (λ first e.
        Ends-bind (render_all render path context xs) _ (render_all-Ends path context xs)
          (λ rest e'. tt))

  render_block-Ends :
      (path : List Text) (context : List Dict) (obj : Obj)
      → Ends (render_block render path context obj)
  unfolding render_block
  render_block-Ends path context nothing = tt
  render_block-Ends path context (boolean true) = fine context
  render_block-Ends path context (boolean false) = tt
  render_block-Ends path context (list xs) = render_all-Ends path context xs
  render_block-Ends path context (text s) = fine context
  render_block-Ends path context (dict d) = fine context
  render_block-Ends path context (called d v) = fine context

  render_inverted-Ends :
      (path : List Text) (context : List Dict) (obj : Obj)
      → Ends (render_inverted render path context obj)
  unfolding render_inverted
  render_inverted-Ends path context obj = go (is_falsy obj)
    where
      go : (b : Bool) → Ends (if b then render (push path (text []) context) else ok [])
      go true = fine (push path (text []) context)
      go false = tt

after_body-le : (ret rest : Text) → length (after_body ret rest) ≤ length rest
unfolding after_body
after_body-le ret [] = go (ends_line ret)
  where
    go : (b : Bool) → length {A = ℕ} (if b then [] else []) ≤ 0
    go true = omega arith
    go false = omega arith
after_body-le ret (c ∷ s) = ground arith

-- An expansion ends, and leaves no more of the template than it was given.
abbrev LeavesLess : Text → Result Error (Text × Text) → Type 0
LeavesLess after (ok (ret, rest)) = length rest ≤ length after
LeavesLess after (err no_get) = Unit
LeavesLess after (err not_set) = Unit
LeavesLess after (err unclosed) = Unit
LeavesLess after (err too_long) = ⊥

-- What follows the rendering of a body.
closed_less :
    (m : Result Error Text) (f : Text → Text) (after rest : Text)
    → Ends m
    → length rest ≤ length after
    → LeavesLess after (m >>= λ added. ok (f added, after_body (f added) rest))
closed_less (ok added) f after rest e le = omega (arith, after_body-le (f added) rest)
closed_less (err no_get) f after rest e le = tt
closed_less (err not_set) f after rest e le = tt
closed_less (err unclosed) f after rest e le = tt
closed_less (err too_long) f after rest e le = e

module _ (show : Obj → Text) (strict : Bool) where
  expand-less :
      (render : Text → Render) (tag : Tag) (key after : Text) (context : List Dict) (obj : Obj)
      (ret : Text)
      → ((body : Text) (context' : List Dict)
          → length body ≤ length after
          → Ends (render body context'))
      → LeavesLess after (expand show strict render tag key after context obj ret)
  unfolding expand
  expand-less render plain key after context obj ret fine = omega arith
  expand-less render block key after context obj ret fine =
      elim (Option-cases (find_tag (close_tag key) after)) [
        | inl open_end ↦ rw (open_end, expand) tt
        | inr (r, e) ↦
            let (lb, lr) = find_tag-less (close_tag key) after r.0 r.1 e in
            rw (e, expand)
              (closed_less _ (λ added. before_body ret r.0 ++ added) after r.1
                (render_block-Ends (render r.0) (λ c. fine r.0 c lb) (split_key key) context obj)
                lr)
      ]
  expand-less render invert key after context obj ret fine =
      elim (Option-cases (find_tag (close_tag key) after)) [
        | inl open_end ↦ rw (open_end, expand) tt
        | inr (r, e) ↦
            let (lb, lr) = find_tag-less (close_tag key) after r.0 r.1 e in
            rw (e, expand)
              (closed_less _ (λ added. before_body ret r.0 ++ added) after r.1
                (render_inverted-Ends (render r.0) (λ c. fine r.0 c lb) (split_key key) context obj)
                lr)
      ]

  LeavesLess-bind :
      (after : Text) (m : Result Error (Text × Text)) (f : Text × Text → Result Error Text)
      → LeavesLess after m
      → ((p : Text × Text) → length p.1 ≤ length after → Ends (f p))
      → Ends (m >>= f)
  LeavesLess-bind after (ok (ret, rest)) f l g = g (ret, rest) l
  LeavesLess-bind after (err no_get) f l g = tt
  LeavesLess-bind after (err not_set) f l g = tt
  LeavesLess-bind after (err unclosed) f l g = tt
  LeavesLess-bind after (err too_long) f l g = l

  parse_loop-Ends :
      (fuel : ℕ) (context : List Dict) (template ret : Text)
      → length template < fuel
      → Ends (parse_loop show strict fuel context template ret)
  unfolding parse_loop
  parse_loop-Ends zero context template ret le = absurd (omega arith)
  parse_loop-Ends (suc fuel) context template ret le = elim (Option-cases (search_head template)) [
    | inl no_head ↦ rw (no_head, parse_loop) tt
    | inr (r, e) ↦
        let less = search_head-less template r.0 r.1 e in
        rw (e, parse_loop)
          (Ends-bind (resolve (split_key r.1.key) context strict) _
            (resolve-Ends (split_key r.1.key) context strict)
            (λ obj found.
              LeavesLess-bind r.1.after _ _
                (expand-less _ r.1.tag r.1.key r.1.after context obj (ret ++ r.0)
                  (λ body context' lb. parse_loop-Ends fuel context' body [] (omega arith)))
                (λ p lp. parse_loop-Ends fuel context p.1 p.0 (omega arith))))
  ]

-- Rendering a template ends, whatever the template and the values: the fuel is the length of the
-- template, and neither the rounds nor the nesting of the bodies use it up.
pub parse-Ends :
    (show : Obj → Text) (strict : Bool) (template : Text) (values : Dict)
    → Ends (parse show strict template values)
unfolding parse
parse-Ends show strict template values =
    parse_loop-Ends show strict (suc (length template)) (values ∷ []) template [] (omega arith)
