-- ===== src/Examples/Cib.antt =====
-- Runs of the removal of objects and of references to them.
use crmsh.Prelude.{
  Bool, true, false, ◌&&◌, ◌||◌, Option, none, some, List, [], ◌∷◌, ◌++◌, ◌≡◌, refl, ap, ◌∙◌, subst,
  arith, Text, codes, same, truthy, Bool-cases, inl, inr,
}
use crmsh.Cli.Sets.Element.{RscSet}
use crmsh.IdMgmt.Store.{Store, is_used, rename}
use crmsh.Cib.Constraint.{
  rsc_colocation, Constraint, is_ref_attr, refers, any_attr, any_ref, any_set, rsc_constraint,
  all_refs, rset_uniq, tally,
}
use crmsh.Cib.Dangling.{KeepsOut, or-false}
use crmsh.Cib.Rename.{rename_obj}
use crmsh.Cib.NewId.{Renamed, rename_obj-Renamed}
use crmsh.Cib.Unique.{keep_last, rset_uniq-keep_last}
use crmsh.Cib.Factory.{
  Body, resource, constraint, tag, other, Obj, Factory, lookup, update, remove_first, related,
  remove_obj, delete_1,
}
use crmsh.Cib.Objects.{Unique, lookup-related}
use crmsh.Cib.Tags.{Removed}
use crmsh.Cib.Clear.{Unmixed}
use crmsh.Cib.Removal.{Unreferenced, remove_obj-Unreferenced, remove_obj-Removed}

-- Two references in resource sets become the attributes of a colocation.
colocated : List Text → Constraint → Option Constraint
colocated (a ∷ b ∷ []) c =
    some
      (record c { attributes = (codes "rsc", a) ∷ (codes "with-rsc", b) ∷ c.attributes; sets = [] })
colocated _ c = none

simple : Constraint → Option Constraint
unfolding colocated all_refs
simple c = colocated (all_refs c.sets) c

any_ref-append : (r : Text) (l m : List Text) → any_ref r (l ++ m) ≡ any_ref r l || any_ref r m
unfolding any_ref
any_ref-append r [] m = refl
any_ref-append r (x ∷ l) m = elim (Bool-cases (same x r)) [
  | inl e ↦ rw e refl
  | inr e ↦ rw e (any_ref-append r l m)
]

any_ref-all_refs : (r : Text) (sets : List RscSet) → any_ref r (all_refs sets) ≡ any_set r sets
unfolding all_refs any_set any_ref
any_ref-all_refs r [] = refl
any_ref-all_refs r (s ∷ sets) =
    any_ref-append r s.refs (all_refs sets)
    ∙ ap (λ x. any_ref r s.refs || x) (any_ref-all_refs r sets)

some_eq : (c d : Constraint) → ◌≡◌ {A = Option Constraint} (some c) (some d) → c ≡ d
some_eq c d e = grind arith

colocated_lem :
    (r : Text) (refs : List Text) (c c' : Constraint)
    → any_ref r refs ≡ false
    → any_attr r c.attributes ≡ false
    → colocated refs c ≡ some c'
    → rsc_constraint r c' ≡ false
unfolding colocated any_ref any_attr any_set rsc_constraint refers is_ref_attr same
colocated_lem r [] c c' n m e = grind arith
colocated_lem r (a ∷ []) c c' n m e = grind arith
colocated_lem r (a ∷ b ∷ x ∷ l) c c' n m e = grind arith
colocated_lem r (a ∷ b ∷ []) c c' n m e =
    let (n0, n1) = or-false (same a r) (same b r || false) n in
    let (n2, n3) = or-false (same b r) false n1 in
    subst (λ z. rsc_constraint r z ≡ false) (some_eq _ c' e) (rw (n0, n2, m) refl)

simple-KeepsOut : (r : Text) → KeepsOut simple r
unfolding simple rsc_constraint
simple-KeepsOut r c c' e n =
    let (n0, n1) = or-false (any_attr r c.attributes) (any_set r c.sets) n in
    colocated_lem r (all_refs c.sets) c c' (any_ref-all_refs r c.sets ∙ n1) n0 e

abbrev set_of : List Text → RscSet
set_of refs = record {
  require_all = none;
  sequential = none;
  role = none;
  action = none;
  refs = refs;
}

abbrev p1 : Text
p1 = codes "p1"

abbrev p2 : Text
p2 = codes "p2"

abbrev p3 : Text
p3 = codes "p3"

abbrev pair : Constraint
pair = record {
  tag = rsc_colocation;
  attributes = (codes "rsc", p1) ∷ (codes "with-rsc", p3) ∷ [];
  sets = [];
}

abbrev triple : Constraint
triple = record { tag = rsc_colocation; attributes = []; sets = set_of (p1 ∷ p2 ∷ p3 ∷ []) ∷ [] }

abbrev object : Text → Body → Obj
object i b = record { obj_id = i; body = b; from_cib = true }

-- A group with two members, of which the first is in a tag and in two constraints.
abbrev factory : Factory
factory = record {
  cib_objects =
      object (codes "g") (resource (p1 ∷ p2 ∷ []) none)
      ∷ object p1 (resource [] (some (codes "g")))
      ∷ object p2 (resource [] (some (codes "g")))
      ∷ object p3 (resource [] none)
      ∷ object (codes "t") (tag (p1 ∷ []))
      ∷ object (codes "c") (constraint pair)
      ∷ object (codes "o") (constraint triple)
      ∷ [];
  remove_queue = [];
}

rset_uniq_test :
    all_refs (rset_uniq (set_of (p1 ∷ p2 ∷ p1 ∷ []) ∷ []) (tally (p1 ∷ p2 ∷ p1 ∷ []) [])).0
    ≡ p2 ∷ p1 ∷ []
unfolding rset_uniq all_refs tally same
rset_uniq_test = refl

-- The group keeps its other member, the tag and the simple colocation go, and the other one becomes simple.
remove_obj_test :
    remove_obj simple 7 p1 factory
    ≡ some (record {
      cib_objects =
          object (codes "g") (resource (p2 ∷ []) none)
          ∷ object p2 (resource [] (some (codes "g")))
          ∷ object p3 (resource [] none)
          ∷ object (codes "o") (
              constraint (record {
                tag = rsc_colocation;
                attributes = (codes "rsc", p3) ∷ (codes "with-rsc", p2) ∷ [];
                sets = [];
              }))
          ∷ [];
      remove_queue = p1 ∷ codes "t" ∷ codes "c" ∷ [];
    })
unfolding remove_obj simple same update truthy remove_first
remove_obj_test = refl

-- The last member of a group takes the group with it.
delete_1_test :
    delete_1 simple 2 p1 (record {
      cib_objects =
          object (codes "g") (resource (p1 ∷ []) none)
          ∷ object p1 (resource [] (some (codes "g")))
          ∷ [];
      remove_queue = [];
    })
    ≡ some (record { cib_objects = []; remove_queue = codes "g" ∷ p1 ∷ [] })
unfolding delete_1 simple same
delete_1_test = refl

rset_uniq-keep_last_example :
    (all_refs
        (rset_uniq
          (set_of (p1 ∷ p2 ∷ p1 ∷ []) ∷ [])
          (tally (all_refs (set_of (p1 ∷ p2 ∷ p1 ∷ []) ∷ [])) [])).0
      ≡ keep_last (all_refs (set_of (p1 ∷ p2 ∷ p1 ∷ []) ∷ [])))
rset_uniq-keep_last_example = rset_uniq-keep_last (set_of (p1 ∷ p2 ∷ p1 ∷ []) ∷ [])

mixes : Text → Body → Bool
mixes i (resource children p) = false
mixes i (constraint c) = any_attr i c.attributes && any_set i c.sets
mixes i (tag refs) = false
mixes i other = false

mixes-Unmixed : (i : Text) (l : List Obj) → related (mixes i) l ≡ [] → Unmixed i l
unfolding mixes any_ref
mixes-Unmixed i l e j c h = elim (Bool-cases (any_attr i c.attributes && any_set i c.sets)) [
  | inr n ↦ n
  | inl y ↦
      (let m = lookup-related (mixes i) j (constraint c) l h y in
        let m' = subst (λ z. any_ref j z ≡ true) e m in grind arith)
]

factory-Unique : Unique factory.cib_objects
unfolding lookup same
factory-Unique = (refl, (refl, (refl, (refl, (refl, (refl, (refl, tt)))))))

factory-Unmixed : Unmixed p1 factory.cib_objects
unfolding related mixes any_attr any_set same
factory-Unmixed = mixes-Unmixed p1 factory.cib_objects refl

remove_obj-Unreferenced_example :
    (f' : Factory) × (remove_obj simple 7 p1 factory ≡ some f') × Unreferenced p1 factory f'
unfolding lookup any_ref same
remove_obj-Unreferenced_example =
    remove_obj-Unreferenced simple p1 [] (some (codes "g")) factory (simple-KeepsOut p1)
      factory-Unique factory-Unmixed refl refl

remove_obj-Removed_example :
    (f' : Factory) × (remove_obj simple 7 (codes "c") factory ≡ some f')
    × Removed (codes "c") factory f'
unfolding lookup same
remove_obj-Removed_example =
    remove_obj-Removed simple (codes "c") (constraint pair) factory factory-Unique refl refl

abbrev ids : Store
ids = record { ids = codes "g" ∷ p1 ∷ p2 ∷ p3 ∷ []; saved = []; ok = true }

-- The name is not in use, and the tag keeps the old one.
rename_obj-Renamed_example :
    (f' : Factory) × (rename_obj simple true (λ i. true) p1 (codes "x") factory ids
      ≡ some (none, (f', rename (some p1) (some (codes "x")) ids)))
    × Renamed p1 (codes "x") (resource [] (some (codes "g"))) factory f'
unfolding lookup same is_used
rename_obj-Renamed_example =
    rename_obj-Renamed simple (λ i. true) p1 (codes "x") [] (some (codes "g")) factory ids
      (simple-KeepsOut p1) refl factory-Unique factory-Unmixed refl refl refl refl refl
