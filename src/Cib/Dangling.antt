-- ===== src/Cib/Dangling.antt =====
-- What is left of a resource in a constraint after crmsh/xmlutil.py has deleted it there.
use crmsh.Prelude.{
  arith, Bool, true, false, ◌&&◌, ◌||◌, not, Option, none, some, List, [], ◌∷◌, ◌==◌, if◌then◌else◌,
  ◌≡◌, refl, ap, ◌∙◌, subst, Text, same, same-eq, codes, is_empty, length, truthy, Bool-cases,
  Option-cases, inl, inr,
}
use crmsh.Cli.Sets.Element.{RscSet}
use crmsh.Cib.Constraint.{
  Constraint, is_ref_attr, refers, any_attr, any_ref, any_set, rsc_constraint, all_refs,
  delete_attrs, delete_rscref_simple, delete_refs, delete_in_sets, drop_empty, has_nonsequential,
  drop_sequential, attr_of, put_attr, put_maybe, is_colocation, exchange, rset_convert,
  delete_rscref_rset, delete_rscref,
}

pub or-false : (a b : Bool) → a || b ≡ false → (a ≡ false) × (b ≡ false)
or-false true b e = ground arith
or-false false b e = (refl, e)

-- A constraint that goes over to its text and back gains no reference.
abbrev pub KeepsOut : (Constraint → Option Constraint) → Text → Type 0
KeepsOut cli2node r =
    (c c' : Constraint)
    → cli2node c ≡ some c'
    → rsc_constraint r c ≡ false
    → rsc_constraint r c' ≡ false

attr_of-refers :
    (r name v : Text) (l : List (Text × Text))
    → any_attr r l ≡ false
    → is_ref_attr name ≡ true
    → attr_of name l ≡ some v
    → same v r ≡ false
unfolding attr_of any_attr refers
attr_of-refers r name v [] n i e = ground arith
attr_of-refers r name v ((k, w) ∷ l) n i e = elim (Bool-cases (same k name)) [
  | inl h ↦
      (let ek = same-eq k name h in
        let en = or-false (refers r (k, w)) (any_attr r l) n in grind arith)
  | inr h ↦
      attr_of-refers r name v l (or-false (refers r (k, w)) (any_attr r l) n).1 i
        (subst (λ b. (if b then some w else attr_of name l) ≡ some v) h e)
]

put_attr-any :
    (r name v : Text) (l : List (Text × Text))
    → any_attr r l ≡ false
    → same v r ≡ false
    → any_attr r (put_attr name v l) ≡ false
unfolding put_attr any_attr refers
put_attr-any r name v [] n h = grind arith
put_attr-any r name v ((k, w) ∷ l) n h = elim (Bool-cases (same k name)) [
  | inl e ↦ grind arith
  | inr e ↦
      (let (n1, n2) = or-false (refers r (k, w)) (any_attr r l) n in
        rw (e, any_attr) (rw n1 (put_attr-any r name v l n2 h)))
]

delete_attrs-any : (r : Text) (l : List (Text × Text)) → any_attr r (delete_attrs r l) ≡ false
unfolding delete_attrs any_attr
delete_attrs-any r [] = refl
delete_attrs-any r (a ∷ l) = elim (Bool-cases (refers r a)) [
  | inl e ↦ rw e (delete_attrs-any r l)
  | inr e ↦ rw (e, any_attr) (rw e (delete_attrs-any r l))
]

delete_refs-any : (r : Text) (refs : List Text) → any_ref r (delete_refs r refs) ≡ false
unfolding delete_refs any_ref
delete_refs-any r [] = refl
delete_refs-any r (x ∷ refs) = elim (Bool-cases (same x r)) [
  | inl e ↦ rw e (delete_refs-any r refs)
  | inr e ↦ rw (e, any_ref) (rw e (delete_refs-any r refs))
]

delete_in_sets-any : (r : Text) (sets : List RscSet) → any_set r (delete_in_sets r sets) ≡ false
unfolding delete_in_sets any_set
delete_in_sets-any r [] = refl
delete_in_sets-any r (s ∷ sets) = rw (delete_refs-any r s.refs) (delete_in_sets-any r sets)

any_ref_empty : (r : Text) (refs : List Text) → is_empty refs ≡ true → any_ref r refs ≡ false
unfolding any_ref
any_ref_empty r [] e = refl
any_ref_empty r (x ∷ refs) e = ground arith

drop_empty-any : (r : Text) (sets : List RscSet) → any_set r (drop_empty sets) ≡ any_set r sets
unfolding drop_empty any_set
drop_empty-any r [] = refl
drop_empty-any r (s ∷ sets) = elim (Bool-cases (is_empty s.refs)) [
  | inl e ↦ rw (e, any_ref_empty r s.refs e) (drop_empty-any r sets)
  | inr e ↦ rw e (ap (λ x. any_ref r s.refs || x) (drop_empty-any r sets))
]

drop_sequential-any :
    (r : Text) (sets : List RscSet) → any_set r (drop_sequential sets) ≡ any_set r sets
unfolding drop_sequential any_set
drop_sequential-any r [] = refl
drop_sequential-any r (s ∷ sets) = elim (Bool-cases (truthy s.sequential)) [
  | inl e ↦ rw e (ap (λ x. any_ref r s.refs || x) (drop_sequential-any r sets))
  | inr e ↦ rw e (ap (λ x. any_ref r s.refs || x) (drop_sequential-any r sets))
]

put_maybe-any :
    (r name : Text) (o : Option Text) (l : List (Text × Text))
    → any_attr r l ≡ false
    → ((v : Text) → o ≡ some v → same v r ≡ false)
    → any_attr r (put_maybe name o l) ≡ false
put_maybe-any r name none l n h = n
put_maybe-any r name (some v) l n h = put_attr-any r name v l n (h v refl)

exchange_lem :
    (r : Text) (c : Constraint) → rsc_constraint r c ≡ false → rsc_constraint r (exchange c) ≡ false
unfolding rsc_constraint exchange is_ref_attr same
exchange_lem r c n =
    let (n1, n2) = or-false (any_attr r c.attributes) (any_set r c.sets) n in
    let first =
      put_maybe-any r (codes "rsc") (attr_of (codes "with-rsc") c.attributes) c.attributes n1
        (λ v e. attr_of-refers r (codes "with-rsc") v c.attributes n1 refl e) in
    let second =
      put_maybe-any r (codes "with-rsc") (attr_of (codes "rsc") c.attributes)
        (put_maybe (codes "rsc") (attr_of (codes "with-rsc") c.attributes) c.attributes) first
        (λ v e. attr_of-refers r (codes "rsc") v c.attributes n1 refl e) in
    rw second n2

drop_sequential_lem :
    (r : Text) (c : Constraint)
    → rsc_constraint r (record c { sets = drop_sequential c.sets }) ≡ rsc_constraint r c
unfolding rsc_constraint
drop_sequential_lem r c = ap (λ x. any_attr r c.attributes || x) (drop_sequential-any r c.sets)

rset_convert_lem :
    (cli2node : Constraint → Option Constraint) (r : Text) (c : Constraint)
    → KeepsOut cli2node r
    → rsc_constraint r c ≡ false
    → rsc_constraint r (rset_convert cli2node c) ≡ false
unfolding rset_convert
rset_convert_lem cli2node r c k n =
    let plain = record c { sets = drop_sequential c.sets } in
    let np : rsc_constraint r plain ≡ false = drop_sequential_lem r c ∙ n in
    elim (Bool-cases (length (all_refs c.sets) == 2)) [
      | inr e ↦ rw e n
      | inl e ↦ (elim (Option-cases (cli2node plain)) [
        | inl o ↦ rw (e, o) np
        | inr (new, o) ↦ (elim (Bool-cases (length c.sets == 1 && is_colocation c.tag)) [
          | inl x ↦ rw (e, o, x) (exchange_lem r new (k plain new o np))
          | inr x ↦ rw (e, o, x) (k plain new o np)
        ])
      ])
    ]

pub if_convert_lem :
    (cli2node : Constraint → Option Constraint) (r : Text) (b : Bool) (c : Constraint)
    → KeepsOut cli2node r
    → rsc_constraint r c ≡ false
    → rsc_constraint r (if b then rset_convert cli2node c else c) ≡ false
if_convert_lem cli2node r true c k n = rset_convert_lem cli2node r c k n
if_convert_lem cli2node r false c k n = n

pub parts_false :
    (r : Text) (c : Constraint)
    → any_attr r c.attributes ≡ false
    → any_set r c.sets ≡ false
    → rsc_constraint r c ≡ false
unfolding rsc_constraint
parts_false r c a b = rw (a, b) refl

delete_rscref_rset_lem :
    (cli2node : Constraint → Option Constraint) (r : Text) (c : Constraint)
    → KeepsOut cli2node r
    → any_attr r c.attributes ≡ false
    → rsc_constraint r (delete_rscref_rset cli2node r c).1 ≡ false
unfolding delete_rscref_rset
delete_rscref_rset_lem cli2node r c k n =
    let sets = delete_in_sets r c.sets in
    let rest = record c { sets = drop_empty sets } in
    if_convert_lem cli2node r (not (has_nonsequential sets) && length (all_refs sets) == 2) rest k
      (parts_false r rest n (drop_empty-any r sets ∙ delete_in_sets-any r c.sets))

-- After `delete_rscref` a constraint does not refer to the resource, where it has not referred to it
-- both by an attribute and by a resource set, and where a constraint that is written as text and read
-- again (`cli2node`) gains no reference to it.
pub rsc_constraint-delete_rscref :
    (cli2node : Constraint → Option Constraint) (r : Text) (c : Constraint)
    → KeepsOut cli2node r
    → any_attr r c.attributes && any_set r c.sets ≡ false
    → rsc_constraint r ((delete_rscref cli2node r c).1) ≡ false
unfolding delete_rscref delete_rscref_simple
rsc_constraint-delete_rscref cli2node r c k m = elim (Bool-cases (any_attr r c.attributes)) [
  | inl e ↦ rw e (
      parts_false r (record c { attributes = delete_attrs r c.attributes })
        (delete_attrs-any r c.attributes) (subst (λ b. b && any_set r c.sets ≡ false) e m))
  | inr e ↦ rw e (
      delete_rscref_rset_lem cli2node r (record c { attributes = delete_attrs r c.attributes }) k
        (delete_attrs-any r c.attributes))
]
