-- ===== src/Cib/Removal.antt =====
-- The removal of a resource: the loop over the constraints that refer to it.
use crmsh.Prelude.{
  ℕ, zero, suc, ◌≤◌, true, false, Option, none, some, List, ◌≡◌, refl, sym, ap, ◌∙◌, arith, Text,
  length, Bool-cases, inl, inr,
}
use crmsh.Cib.Constraint.{Constraint, any_ref, delete_rscref, silly_constraint}
use crmsh.Cib.Dangling.{KeepsOut}
use crmsh.Cib.Factory.{
  Body, resource, constraint, tag, other, Factory, is_resource, related_constraint, lookup, unlink,
  detach, put, and_then, inherit, leave_constraint, leave_constraints, remove_obj,
}
use crmsh.Cib.Objects.{length-drop, lookup-update_same, Unique}
use crmsh.Cib.Loop.{Turn, for_each-related}
use crmsh.Cib.Kept.{found-drop}
use crmsh.Cib.Tags.{
  Removed, Removes, Holds, Kept-Holds, leave_tags, drop-Holds, remove_obj_lem, remove_obj-Removes,
}
use crmsh.Cib.Relink.{unlink-Relinked}
use crmsh.Cib.Clear.{
  Unmixed, Untagged, Clear, NoneNew, rewritten_lem, leave_constraint_lem, put-Turn, Turn-Removed,
}

-- The object is gone, and nothing refers to it.
pub record Unreferenced (i : Text) (f f' : Factory) : Type 0 where
  pub gone : lookup i f'.cib_objects ≡ none
  pub untagged : Untagged i f'.cib_objects
  pub unconstrained :
      (j : Text) (b : Body) → lookup j f'.cib_objects ≡ some b → related_constraint i b ≡ false
  pub none_new : NoneNew f f'

module _ (cli2node : Constraint → Option Constraint) (i : Text) (keeps : KeepsOut cli2node i)
    (children : List Text) (own : any_ref i children ≡ false) where
  leave_constraint-constraint :
      (remove : Text → Factory → Option Factory) (n : ℕ) (t : Text) (c : Constraint) (f : Factory)
      → Removes remove n
      → Clear i n f
      → lookup t f.cib_objects ≡ some (constraint c)
      → (f' : Factory) × (leave_constraint cli2node remove i children t f ≡ some f')
        × Turn (related_constraint i) (Clear i n) NoneNew t f f'
  leave_constraint-constraint remove n t c f rm clear e =
      let c' = (delete_rscref cli2node i (inherit cli2node i children c)).1 in
      let free = rewritten_lem cli2node i keeps children c own (clear.unmixed t c e) in
      let f1 = put t (constraint c') f in
      let turn = put-Turn cli2node i keeps n t c c' f clear e free in
      let q = leave_constraint_lem cli2node i keeps remove children t c f e in
      elim (Bool-cases (silly_constraint i c')) [
        | inr z ↦ (f1, q ∙ rw z refl, turn)
        | inl z ↦
            (let found = lookup-update_same t (constraint c) (constraint c') f.cib_objects e in
              let (f2, s, r) =
                rm t (constraint c') f1 found refl turn.holds.holds.0 turn.holds.holds.2 in
              (f2, q ∙ rw z s, Turn-Removed i n t f f1 f2 turn r))
      ]

  leave_constraint-Turn :
      (remove : Text → Factory → Option Factory) (n : ℕ)
      → Removes remove n
      → (t : Text) (b : Body) (f : Factory) → Clear i n f
      → lookup t f.cib_objects ≡ some b
      → related_constraint i b ≡ true
      → (f' : Factory) × (leave_constraint cli2node remove i children t f ≡ some f')
        × Turn (related_constraint i) (Clear i n) NoneNew t f f'
  unfolding related_constraint
  leave_constraint-Turn remove n rm t (resource ch p) f clear e r = grind arith
  leave_constraint-Turn remove n rm t (tag refs) f clear e r = grind arith
  leave_constraint-Turn remove n rm t other f clear e r = grind arith
  leave_constraint-Turn remove n rm t (constraint c) f clear e r =
      leave_constraint-constraint remove n t c f rm clear e

  -- Where the resource is gone and no tag refers to it, the loop over the constraints comes to its end.
  leave_constraints_lem :
      (n : ℕ) (p : Option Text) (f : Factory)
      → Clear i n f
      → (f' : Factory) × (leave_constraints cli2node
            (remove_obj cli2node n)
            i
            (resource children p)
            f
          ≡ some f')
        × Unreferenced i f f'
  unfolding leave_constraints
  leave_constraints_lem n p f clear =
      let (f', s, h, k, d) =
        for_each-related (related_constraint i) (Clear i n) NoneNew (λ g c j b e. (b, e))
          (λ g g' g2 k l j b e. (let (b1, e1) = l j b e in k j b1 e1))
          (leave_constraint cli2node (remove_obj cli2node n) i children)
          (leave_constraint-Turn (remove_obj cli2node n) n (remove_obj-Removes cli2node n)) f clear
          clear.holds.0 in
      (f', s, record { gone = h.holds.1; untagged = h.untagged; unconstrained = d; none_new = k })

  detach-NoneNew : (p : Option Text) (f : Factory) → NoneNew f (detach i (resource children p) f)
  unfolding detach
  detach-NoneNew p f j b h =
      let l = f.cib_objects in
      let r = unlink-Relinked i children p l in
      let (b0, e0, w) = r.back j b (found-drop i j b (unlink i (resource children p) l) h) in
      (b0, e0)

  detach-Holds :
      (n : ℕ) (p : Option Text) (f : Factory)
      → Unique f.cib_objects
      → lookup i f.cib_objects ≡ some (resource children p)
      → length f.cib_objects ≤ suc n
      → Holds i n (detach i (resource children p) f)
  unfolding detach
  detach-Holds n p f u e le =
      let l = f.cib_objects in
      let r = unlink-Relinked i children p l in
      let (b', e') = r.found i (resource children p) e in
      drop-Holds i n b' (unlink i (resource children p) l) f.remove_queue e' (r.unique u)
        (let s = r.same_length in omega arith)

  detach-Unmixed :
      (p : Option Text) (f : Factory)
      → Unmixed i f.cib_objects
      → Unmixed i (detach i (resource children p) f).cib_objects
  unfolding detach
  detach-Unmixed p f m j c h =
      let l = f.cib_objects in
      let r = unlink-Relinked i children p l in
      let (b0, e0, w) =
        r.back j (constraint c)
          (found-drop i j (constraint c) (unlink i (resource children p) l) h) in
      m j c (e0 ∙ ap some (sym (w refl)))

  remove_resource :
      (n : ℕ) (p : Option Text) (f : Factory)
      → Unique f.cib_objects
      → Unmixed i f.cib_objects
      → lookup i f.cib_objects ≡ some (resource children p)
      → length f.cib_objects ≤ suc n
      → (f' : Factory) × (remove_obj cli2node (suc n) i f ≡ some f') × Unreferenced i f f'
  remove_resource n p f u m e le =
      let b = resource children p in
      let f1 = detach i b f in
      let h : Holds i n f1 = detach-Holds n p f u e le in
      let (f2, s, r) =
        leave_tags (remove_obj cli2node n) i n f1 (remove_obj-Removes cli2node n) h in
      let m2 : Unmixed i f2.cib_objects = λ j c q.
        (let (b1, e1, w1) = r.kept.back j (constraint c) q in
          detach-Unmixed p f m j c (e1 ∙ ap some (sym (w1.equal refl)))) in
      let clear : Clear i n f2 = record {
        holds = Kept-Holds i n f1 f2 h r.kept;
        untagged = r.untagged;
        unmixed = m2;
      } in
      let (f3, s3, w) = leave_constraints_lem n p f2 clear in
      (
        f3,
        remove_obj_lem cli2node n i b f e
            ∙ ap (λ z. and_then z (leave_constraints cli2node (remove_obj cli2node n) i b)) s
            ∙ s3,
        record {
          gone = w.gone;
          untagged = w.untagged;
          unconstrained = w.unconstrained;
          none_new = λ j b' q.
              (let (b2, q2) = w.none_new j b' q in
                let (b1, q1, w1) = r.kept.back j b2 q2 in detach-NoneNew p f j b1 q1);
        },
      )

  on_fuel :
      (m : ℕ) (p : Option Text) (f : Factory)
      → m ≡ length f.cib_objects
      → Unique f.cib_objects
      → Unmixed i f.cib_objects
      → lookup i f.cib_objects ≡ some (resource children p)
      → (f' : Factory) × (remove_obj cli2node m i f ≡ some f') × Unreferenced i f f'
  on_fuel zero p f q u m e =
      let s = length-drop i (resource children p) f.cib_objects e in grind arith
  on_fuel (suc n) p f q u m e = remove_resource n p f u m e (omega arith)

-- The removal of a resource returns, on as much fuel as there are objects. Then the resource is gone, no
-- tag and no constraint refers to it, and no object is new. This holds where the ids are unique, the
-- resource is not its own child, no constraint refers to it both by an attribute and by a resource set,
-- and a constraint that is written as text and read again gains no reference to it.
pub remove_obj-Unreferenced :
    (cli2node : Constraint → Option Constraint) (i : Text) (children : List Text) (p : Option Text)
    (f : Factory)
    → KeepsOut cli2node i
    → Unique f.cib_objects
    → Unmixed i f.cib_objects
    → any_ref i children ≡ false
    → lookup i f.cib_objects ≡ some (resource children p)
    → (f' : Factory) × (remove_obj cli2node (length f.cib_objects) i f ≡ some f')
      × Unreferenced i f f'
remove_obj-Unreferenced cli2node i children p f k u m own e =
    on_fuel cli2node i k children own (length f.cib_objects) p f refl u m e

-- The removal of an object that is no resource returns, on as much fuel as there are objects, where the
-- ids are unique. Then the object is gone, no tag refers to it, the tags have no new references, and
-- every other object that is no tag is as it was.
pub remove_obj-Removed :
    (cli2node : Constraint → Option Constraint) (i : Text) (b : Body) (f : Factory)
    → Unique f.cib_objects
    → is_resource b ≡ false
    → lookup i f.cib_objects ≡ some b
    → (f' : Factory) × (remove_obj cli2node (length f.cib_objects) i f ≡ some f') × Removed i f f'
remove_obj-Removed cli2node i b f u r e =
    remove_obj-Removes cli2node (length f.cib_objects) i b f e r u (omega arith)
