-- ===== src/Cib/NewId.antt =====
-- What a renamed resource leaves behind.
use crmsh.Prelude.{
  Bool, true, false, ◌&&◌, Option, none, some, List, ◌≡◌, refl, sym, ap, ◌∙◌, subst, arith, Text,
  same, same-eq, is_empty, Bool-cases, inl, inr,
}
use crmsh.IdMgmt.Store.{Store, is_used, rename}
use crmsh.Cib.Constraint.{Constraint, any_attr, any_set, rename_rscref}
use crmsh.Cib.Dangling.{KeepsOut}
use crmsh.Cib.Renamed.{rsc_constraint-rename_rscref}
use crmsh.Cib.Factory.{
  Body, resource, constraint, tag, other, Factory, is_resource, lookup, related_constraint, put,
}
use crmsh.Cib.Objects.{lookup-update_same, lookup-update_other, Unique, update-Unique}
use crmsh.Cib.Loop.{Turn, for_each-related}
use crmsh.Cib.Kept.{some_body, found_absent}
use crmsh.Cib.Clear.{Unmixed, put_cases, no_mix, constraint_inj}
use crmsh.Cib.Rename.{rename_links, set_id, rename_in, rename_constraints, rename_obj}
use crmsh.Cib.SetId.{lookup-set_id_old, lookup-set_id_new, lookup-set_id_other, lookup-set_id_back}

related_links :
    (old new : Text) (b : Body)
    → related_constraint old (rename_links old new b) ≡ related_constraint old b
unfolding rename_links related_constraint
related_links old new (resource children p) = refl
related_links old new (constraint c) = refl
related_links old new (tag refs) = refl
related_links old new other = refl

-- What holds in the loop over the constraints, and what it leaves alone.
record Loop (old : Text) (f : Factory) : Type 0 where
  unique : Unique f.cib_objects
  unmixed : Unmixed old f.cib_objects

record Untouched (f f' : Factory) : Type 0 where
  absent : (j : Text) → lookup j f.cib_objects ≡ none → lookup j f'.cib_objects ≡ none
  resources :
      (j : Text) (children : List Text) (p : Option Text)
      → lookup j f.cib_objects ≡ some (resource children p)
      → lookup j f'.cib_objects ≡ some (resource children p)
  tags :
      (j : Text) (refs : List Text)
      → lookup j f.cib_objects ≡ some (tag refs)
      → lookup j f'.cib_objects ≡ some (tag refs)

Untouched-refl : (f : Factory) → Untouched f f
Untouched-refl f = record { absent = λ j e. e; resources = λ j c p e. e; tags = λ j r e. e }

Untouched-trans : (f g h : Factory) → Untouched f g → Untouched g h → Untouched f h
Untouched-trans f g h k l = record {
  absent = λ j e. l.absent j (k.absent j e);
  resources = λ j c p e. l.resources j c p (k.resources j c p e);
  tags = λ j r e. l.tags j r (k.tags j r e);
}

abbrev is_constraint : Body → Bool
is_constraint (resource children p) = false
is_constraint (constraint c) = true
is_constraint (tag refs) = false
is_constraint other = false

other_kind :
    (t j : Text) (c : Constraint) (b : Body) (f : Factory)
    → lookup t f.cib_objects ≡ some (constraint c)
    → lookup j f.cib_objects ≡ some b
    → is_constraint b ≡ false
    → same t j ≡ false
other_kind t j c b f e h n = elim (Bool-cases (same t j)) [
  | inr s ↦ s
  | inl s ↦
      (let q = same-eq t j s in
        let k =
          ap is_constraint
            (some_body (constraint c) b (sym e ∙ ap (λ z. lookup z f.cib_objects) q ∙ h)) in
        grind arith)
]

module _ (cli2node : Constraint → Option Constraint) (old new : Text)
    (keeps : KeepsOut cli2node old) (differ : same new old ≡ false) where
  put-Untouched :
      (t : Text) (c0 c : Constraint) (f : Factory)
      → lookup t f.cib_objects ≡ some (constraint c0)
      → Untouched f (put t (constraint c) f)
  put-Untouched t c0 c f e = record {
    absent = λ j h.
        lookup-update_other t j (constraint c) f.cib_objects
          (found_absent t j (constraint c0) f.cib_objects e h)
        ∙ h;
    resources = λ j ch p h.
        lookup-update_other t j (constraint c) f.cib_objects
          (other_kind t j c0 (resource ch p) f e h refl)
        ∙ h;
    tags = λ j refs h.
        lookup-update_other t j (constraint c) f.cib_objects
          (other_kind t j c0 (tag refs) f e h refl)
        ∙ h;
  }

  rename_in_lem :
      (t : Text) (c : Constraint) (f : Factory)
      → lookup t f.cib_objects ≡ some (constraint c)
      → rename_in cli2node old new t f
        ≡ some (put t (constraint (rename_rscref cli2node old new c).1) f)
  unfolding rename_in
  rename_in_lem t c f e = rw (e, rename_in) refl

  rename_in-constraint :
      (t : Text) (c0 : Constraint) (f : Factory)
      → Loop old f
      → lookup t f.cib_objects ≡ some (constraint c0)
      → (f' : Factory) × (rename_in cli2node old new t f ≡ some f')
        × Turn (related_constraint old) (Loop old) Untouched t f f'
  unfolding related_constraint
  rename_in-constraint t c0 f loop e =
      let c = (rename_rscref cli2node old new c0).1 in
      let free =
        rsc_constraint-rename_rscref cli2node old new c0 keeps differ (loop.unmixed t c0 e) in
      (
        put t (constraint c) f,
        rename_in_lem t c0 f e,
        record {
          holds = record {
            unique = update-Unique t (constraint c) f.cib_objects loop.unique;
            unmixed = λ j d h. elim (put_cases t j c0 c (constraint d) f e h) [
              | inl (s, q) ↦
                  subst (λ z. any_attr old z.attributes && any_set old z.sets ≡ false)
                    (sym (constraint_inj d c q)) (no_mix old c free)
              | inr (s, q) ↦ loop.unmixed j d q
            ];
          };
          keeps = put-Untouched t c0 c f e;
          is_done = λ b h.
              ap (related_constraint old) (
                some_body b (constraint c)
                  (sym h ∙ lookup-update_same t (constraint c0) (constraint c) f.cib_objects e))
              ∙ free;
          others =
              λ j b ne h r. (b, lookup-update_other t j (constraint c) f.cib_objects ne ∙ h, r);
          none_new = λ j b h r. elim (put_cases t j c0 c b f e h) [
            | inl (s, q) ↦ (let q' = ap (related_constraint old) q in grind arith)
            | inr (s, q) ↦ (b, q, r)
          ];
        },
      )

  rename_in-Turn :
      (t : Text) (b : Body) (f : Factory)
      → Loop old f
      → lookup t f.cib_objects ≡ some b
      → related_constraint old b ≡ true
      → (f' : Factory) × (rename_in cli2node old new t f ≡ some f')
        × Turn (related_constraint old) (Loop old) Untouched t f f'
  unfolding related_constraint
  rename_in-Turn t (resource ch p) f loop e r = grind arith
  rename_in-Turn t (tag refs) f loop e r = grind arith
  rename_in-Turn t other f loop e r = grind arith
  rename_in-Turn t (constraint c) f loop e r = rename_in-constraint t c f loop e

-- The object is there under its new id only, no constraint refers to the old id, and every tag is as it
-- was.
pub record Renamed (old new : Text) (b : Body) (f f' : Factory) : Type 0 where
  pub gone : lookup old f'.cib_objects ≡ none
  pub found : lookup new f'.cib_objects ≡ some (rename_links old new b)
  pub unconstrained :
      (j : Text) (c : Body) → lookup j f'.cib_objects ≡ some c → related_constraint old c ≡ false
  pub tags :
      (j : Text) (refs : List Text)
      → lookup j f.cib_objects ≡ some (tag refs)
      → lookup j f'.cib_objects ≡ some (tag refs)

tag_other :
    (j i : Text) (refs children : List Text) (p : Option Text) (f : Factory)
    → lookup i f.cib_objects ≡ some (resource children p)
    → lookup j f.cib_objects ≡ some (tag refs)
    → same i j ≡ false
tag_other j i refs children p f e h = elim (Bool-cases (same i j)) [
  | inr s ↦ s
  | inl s ↦
      (let q = same-eq i j s in
        let k = ap is_resource (
          some_body (resource children p) (tag refs)
            (sym e ∙ ap (λ z. lookup z f.cib_objects) q ∙ h)) in
        grind arith)
]

absent_other :
    (i j : Text) (b : Body) (f : Factory)
    → lookup i f.cib_objects ≡ none
    → lookup j f.cib_objects ≡ some b
    → same i j ≡ false
absent_other i j b f n h = elim (Bool-cases (same i j)) [
  | inr s ↦ s
  | inl s ↦ (let q = same-eq i j s in grind arith)
]

end_Renamed :
    (old new : Text) (children : List Text) (p : Option Text) (f f1 : Factory)
    → same new old ≡ false
    → lookup old f.cib_objects ≡ some (resource children p)
    → lookup new f.cib_objects ≡ none
    → Untouched f f1
    → ((j : Text) (c : Body) → lookup j f1.cib_objects ≡ some c → related_constraint old c ≡ false)
    → Renamed old new
        (resource children p)
        f
        (record f1 { cib_objects = set_id old new f1.cib_objects })
unfolding rename_links
end_Renamed old new children p f f1 d e n k u =
    let l = f1.cib_objects in
    record {
      gone = lookup-set_id_old old new l d;
      found =
          lookup-set_id_new old new (resource children p) l (k.absent new n)
            (k.resources old children p e);
      unconstrained = λ j c h.
          (let (i, b, hi, q, s) = lookup-set_id_back old new j c l h in
            ap (related_constraint old) q ∙ related_links old new b ∙ u i b hi);
      tags = λ j refs h.
          lookup-set_id_other old new j (tag refs) l (tag_other j old refs children p f e h)
            (absent_other new j (tag refs) f n h) (k.tags j refs h);
    }

rename_obj_lem :
    (cli2node : Constraint → Option Constraint) (can : Text → Bool) (old new : Text) (b : Body)
    (f f1 : Factory) (s : Store)
    → lookup old f.cib_objects ≡ some b
    → is_empty new ≡ false
    → is_used new s ≡ false
    → can old ≡ true
    → rename_constraints cli2node old new b f ≡ some f1
    → rename_obj cli2node true can old new f s
      ≡ some (
        none,
        (record f1 { cib_objects = set_id old new f1.cib_objects }, rename (some old) (some new) s),
      )
unfolding rename_obj
rename_obj_lem cli2node can old new b f f1 s e m i c r = rw (m, i) (rw e (rw c (rw r refl)))

-- `rename` of a resource that may be renamed, to an id that is not empty, not in use and no object's,
-- does not return false, and the ids in use change as by the `rename` of the ids. Then the resource is
-- there under its new id only, no constraint refers to the old id, and every tag is as it was, so a tag
-- of the resource still has its old id. This holds where the ids are unique, no constraint refers to the
-- resource both by an attribute and by a resource set, and a constraint that is written as text and read
-- again gains no reference to it.
pub rename_obj-Renamed :
    (cli2node : Constraint → Option Constraint) (can : Text → Bool) (old new : Text)
    (children : List Text) (p : Option Text) (f : Factory) (s : Store)
    → KeepsOut cli2node old
    → same new old ≡ false
    → Unique f.cib_objects
    → Unmixed old f.cib_objects
    → lookup old f.cib_objects ≡ some (resource children p)
    → lookup new f.cib_objects ≡ none
    → is_empty new ≡ false
    → is_used new s ≡ false
    → can old ≡ true
    → (f' : Factory) × (rename_obj cli2node true can old new f s
        ≡ some (none, (f', rename (some old) (some new) s)))
      × Renamed old new (resource children p) f f'
unfolding rename_constraints
rename_obj-Renamed cli2node can old new children p f s k d u m e n x i c =
    let (f1, run, h, w, r) =
      for_each-related (related_constraint old) (Loop old) Untouched (λ g q. Untouched-refl g)
        Untouched-trans (rename_in cli2node old new) (rename_in-Turn cli2node old new k d) f
        (record { unique = u; unmixed = m }) u in
    (
      record f1 { cib_objects = set_id old new f1.cib_objects },
      rename_obj_lem cli2node can old new (resource children p) f f1 s e x i c run,
      end_Renamed old new children p f f1 d e n w r,
    )
