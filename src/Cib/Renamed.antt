-- ===== src/Cib/Renamed.antt =====
-- What is left of a resource in a constraint after crmsh/xmlutil.py has renamed it there.
use crmsh.Prelude.{
  Bool, true, false, ◌&&◌, ◌||◌, Option, List, [], ◌∷◌, ◌==◌, ◌≡◌, refl, subst, Text, same,
  Bool-cases, inl, inr, ltb, ◌-◌,
}
use crmsh.Cli.Sets.Element.{RscSet}
use crmsh.Cib.Constraint.{
  Constraint, is_ref_attr, refers, any_attr, any_ref, any_set, rsc_constraint, all_refs,
  rename_attrs, rename_rscref_simple, uniq_refs, rset_uniq, Counts, count_of, put_count, tally,
  total, rename_refs, rename_sets, rename_rscref_rset, rename_rscref,
}
use crmsh.Cib.Dangling.{KeepsOut, or-false, parts_false, if_convert_lem}

and_false : (b : Bool) → b && false || false ≡ false
and_false true = refl
and_false false = refl

rename_attrs-any :
    (r new : Text) (l : List (Text × Text))
    → same new r ≡ false
    → any_attr r (rename_attrs r new l) ≡ false
unfolding rename_attrs any_attr refers is_ref_attr
rename_attrs-any r new [] d = refl
rename_attrs-any r new (a ∷ l) d = elim (Bool-cases (refers r a)) [
  | inl e ↦ rw (e, d, rename_attrs-any r new l d) (and_false (is_ref_attr a.0))
  | inr e ↦ rw e (rw e (rename_attrs-any r new l d))
]

rename_refs-any :
    (r new : Text) (refs : List Text)
    → same new r ≡ false
    → any_ref r (rename_refs r new refs) ≡ false
unfolding rename_refs any_ref
rename_refs-any r new [] d = refl
rename_refs-any r new (x ∷ refs) d = elim (Bool-cases (same x r)) [
  | inl e ↦ rw (e, d) (rename_refs-any r new refs d)
  | inr e ↦ rw e (rw e (rename_refs-any r new refs d))
]

rename_sets-any :
    (r new : Text) (sets : List RscSet)
    → same new r ≡ false
    → any_set r (rename_sets r new sets) ≡ false
unfolding rename_sets any_set
rename_sets-any r new [] d = refl
rename_sets-any r new (s ∷ sets) d =
    rw (rename_refs-any r new s.refs d) (rename_sets-any r new sets d)

uniq_refs-any :
    (r : Text) (refs : List Text) (d : Counts)
    → any_ref r refs ≡ false
    → any_ref r (uniq_refs refs d).0 ≡ false
unfolding uniq_refs any_ref
uniq_refs-any r [] d n = refl
uniq_refs-any r (x ∷ refs) d n =
    let (n1, n2) = or-false (same x r) (any_ref r refs) n in
    elim (Bool-cases (ltb 1 (count_of x d))) [
      | inl e ↦ rw e (uniq_refs-any r refs (put_count x (count_of x d - 1) d) n2)
      | inr e ↦ rw e (rw n1 (uniq_refs-any r refs d n2))
    ]

rset_uniq-any :
    (r : Text) (sets : List RscSet) (d : Counts)
    → any_set r sets ≡ false
    → any_set r (rset_uniq sets d).0 ≡ false
unfolding rset_uniq any_set
rset_uniq-any r [] d n = refl
rset_uniq-any r (s ∷ sets) d n =
    let (n1, n2) = or-false (any_ref r s.refs) (any_set r sets) n in
    rw (uniq_refs-any r s.refs d n1) (rset_uniq-any r sets (uniq_refs s.refs d).1 n2)

rename_rscref_rset_lem :
    (cli2node : Constraint → Option Constraint) (r new : Text) (c : Constraint)
    → KeepsOut cli2node r
    → same new r ≡ false
    → any_attr r c.attributes ≡ false
    → rsc_constraint r (rename_rscref_rset cli2node r new c).1 ≡ false
unfolding rename_rscref_rset
rename_rscref_rset_lem cli2node r new c k d n =
    let renamed = rename_sets r new c.sets in
    let counts = tally (all_refs renamed) [] in
    let rest = record c { sets = (rset_uniq renamed counts).0 } in
    if_convert_lem cli2node r (total (rset_uniq renamed counts).1 == 2) rest k
      (parts_false r rest n (rset_uniq-any r renamed counts (rename_sets-any r new c.sets d)))

-- After `rename_rscref` to another id a constraint does not refer to the old one, under the same two
-- conditions.
pub rsc_constraint-rename_rscref :
    (cli2node : Constraint → Option Constraint) (r new : Text) (c : Constraint)
    → KeepsOut cli2node r
    → same new r ≡ false
    → any_attr r c.attributes && any_set r c.sets ≡ false
    → rsc_constraint r (rename_rscref cli2node r new c).1 ≡ false
unfolding rename_rscref rename_rscref_simple
rsc_constraint-rename_rscref cli2node r new c k d m =
    let c1 = record c { attributes = rename_attrs r new c.attributes } in
    elim (Bool-cases (any_attr r c.attributes)) [
      | inl e ↦ rw e (
          parts_false r c1 (rename_attrs-any r new c.attributes d)
            (subst (λ b. b && any_set r c.sets ≡ false) e m))
      | inr e ↦
          rw e
            (rename_rscref_rset_lem cli2node r new c1 k d (rename_attrs-any r new c.attributes d))
    ]
