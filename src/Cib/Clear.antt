-- ===== src/Cib/Clear.antt =====
-- What a turn of the loop over the constraints of a removed resource does.
use crmsh.Prelude.{
  ℕ, true, false, ◌&&◌, Option, some, List, [], ◌∷◌, ◌≡◌, refl, sym, ap, ◌∙◌, subst, arith, Text,
  same, same-eq, is_empty, Bool-cases, ◌⊎◌, inl, inr,
}
use crmsh.Cib.Constraint.{
  Constraint, any_ref, any_attr, any_set, rsc_constraint, all_refs, delete_rscref, rename_rscref,
  silly_constraint,
}
use crmsh.Cib.Dangling.{KeepsOut, or-false, rsc_constraint-delete_rscref}
use crmsh.Cib.Renamed.{rsc_constraint-rename_rscref}
use crmsh.Cib.Factory.{
  Body, resource, constraint, tag, other, Obj, Factory, is_tag, related_tag, related_constraint,
  lookup, update, put, inherit, leave_constraint,
}
use crmsh.Cib.Objects.{lookup-update_same, lookup-update_other, length-update, update-Unique}
use crmsh.Cib.Loop.{Turn}
use crmsh.Cib.Kept.{Kept-none, Fewer, some_body, found_absent}
use crmsh.Cib.Tags.{Removed, Holds}

-- No constraint refers to the resource both by an attribute and by a resource set.
abbrev pub Unmixed : Text → List Obj → Type 0
Unmixed i l =
    (j : Text) (c : Constraint)
    → lookup j l ≡ some (constraint c)
    → any_attr i c.attributes && any_set i c.sets ≡ false

-- No tag refers to it.
abbrev pub Untagged : Text → List Obj → Type 0
Untagged i l = (j : Text) (b : Body) → lookup j l ≡ some b → related_tag i b ≡ false

-- What holds in this loop.
pub record Clear (i : Text) (n : ℕ) (f : Factory) : Type 0 where
  pub holds : Holds i n f
  pub untagged : Untagged i f.cib_objects
  pub unmixed : Unmixed i f.cib_objects

-- No object is new.
abbrev pub NoneNew : Factory → Factory → Type 0
NoneNew f f' =
    (j : Text) (b' : Body)
    → lookup j f'.cib_objects ≡ some b'
    → (b : Body) × (lookup j f.cib_objects ≡ some b)

pub no_mix :
    (i : Text) (c : Constraint)
    → rsc_constraint i c ≡ false
    → any_attr i c.attributes && any_set i c.sets ≡ false
unfolding rsc_constraint
no_mix i c e = let (e0, e1) = or-false (any_attr i c.attributes) (any_set i c.sets) e in rw e0 refl

pub constraint_inj : (c d : Constraint) → constraint c ≡ constraint d → c ≡ d
constraint_inj c d e = grind arith

-- An object after the constraint `t` has been rewritten is that constraint, or as it was.
pub put_cases :
    (t j : Text) (c0 c : Constraint) (b : Body) (f : Factory)
    → lookup t f.cib_objects ≡ some (constraint c0)
    → lookup j (put t (constraint c) f).cib_objects ≡ some b
    → ((same t j ≡ true) × (b ≡ constraint c))
      ⊎ ((same t j ≡ false) × (lookup j f.cib_objects ≡ some b))
put_cases t j c0 c b f e h = elim (Bool-cases (same t j)) [
  | inr n ↦ inr (n, sym (lookup-update_other t j (constraint c) f.cib_objects n) ∙ h)
  | inl n ↦
      (let q = same-eq t j n in
        let found = lookup-update_same t (constraint c0) (constraint c) f.cib_objects e in
        inl (
          n,
          some_body b (constraint c) (
              sym h
              ∙ subst (λ z. lookup z (update t (constraint c) f.cib_objects) ≡ some (constraint c))
                  q found),
        ))
]

module _ (cli2node : Constraint → Option Constraint) (i : Text) (keeps : KeepsOut cli2node i) where
  inherit_unmixed :
      (children : List Text) (c : Constraint)
      → any_ref i children ≡ false
      → any_attr i c.attributes && any_set i c.sets ≡ false
      → (let d = inherit cli2node i children c in
          any_attr i d.attributes && any_set i d.sets ≡ false)
  unfolding inherit any_ref rsc_constraint
  inherit_unmixed [] c a m = m
  inherit_unmixed (child ∷ children) c a m = elim (Bool-cases (is_empty (all_refs c.sets))) [
    | inr e ↦ rw e m
    | inl e ↦
        (let r =
            rsc_constraint-rename_rscref cli2node i child c keeps
              (or-false (same child i) (any_ref i children) a).0 m in
          rw e (no_mix i (rename_rscref cli2node i child c).1 r))
  ]

  -- What becomes of a related constraint.
  abbrev rewritten : List Text → Constraint → Constraint
  rewritten children c = (delete_rscref cli2node i (inherit cli2node i children c)).1

  pub rewritten_lem :
      (children : List Text) (c : Constraint)
      → any_ref i children ≡ false
      → any_attr i c.attributes && any_set i c.sets ≡ false
      → rsc_constraint i (rewritten children c) ≡ false
  rewritten_lem children c a m =
      rsc_constraint-delete_rscref cli2node i (inherit cli2node i children c) keeps
        (inherit_unmixed children c a m)

  pub leave_constraint_lem :
      (remove : Text → Factory → Option Factory) (children : List Text) (t : Text) (c : Constraint)
      (f : Factory)
      → lookup t f.cib_objects ≡ some (constraint c)
      → leave_constraint cli2node remove i children t f
        ≡ (elim (silly_constraint i (rewritten children c)) as (λ _. Option Factory) [
          | true ↦ remove t (put t (constraint (rewritten children c)) f)
          | false ↦ some (put t (constraint (rewritten children c)) f)
        ])
  unfolding leave_constraint
  leave_constraint_lem remove children t c f e = rw (e, leave_constraint) refl

  module _ (n : ℕ) (t : Text) (c0 c : Constraint) (f : Factory) (clear : Clear i n f)
      (found : lookup t f.cib_objects ≡ some (constraint c0))
      (free : rsc_constraint i c ≡ false) where
    put-Clear : Clear i n (put t (constraint c) f)
    unfolding related_tag
    put-Clear = record {
      holds = (
        update-Unique t (constraint c) f.cib_objects clear.holds.0,
        lookup-update_other t i (constraint c) f.cib_objects
              (found_absent t i (constraint c0) f.cib_objects found clear.holds.1)
            ∙ clear.holds.1,
        (let s = length-update t (constraint c) f.cib_objects in
            let l = clear.holds.2 in omega arith),
      );
      untagged = λ j b h. elim (put_cases t j c0 c b f found h) [
        | inl (e, q) ↦ ap (related_tag i) q
        | inr (e, q) ↦ clear.untagged j b q
      ];
      unmixed = λ j d h. elim (put_cases t j c0 c (constraint d) f found h) [
        | inl (e, q) ↦
            subst (λ z. any_attr i z.attributes && any_set i z.sets ≡ false)
              (sym (constraint_inj d c q)) (no_mix i c free)
        | inr (e, q) ↦ clear.unmixed j d q
      ];
    }

    pub put-Turn : Turn (related_constraint i) (Clear i n) NoneNew t f (put t (constraint c) f)
    unfolding related_constraint
    put-Turn = record {
      holds = put-Clear;
      keeps = λ j b h. elim (put_cases t j c0 c b f found h) [
        | inl (e, q) ↦ (
          constraint c0,
          subst (λ z. lookup z f.cib_objects ≡ some (constraint c0)) (same-eq t j e) found,
        )
        | inr (e, q) ↦ (b, q)
      ];
      is_done = λ b h.
          ap (related_constraint i) (
            some_body b (constraint c)
              (sym h ∙ lookup-update_same t (constraint c0) (constraint c) f.cib_objects found))
          ∙ free;
      others = λ j b ne h r. (b, lookup-update_other t j (constraint c) f.cib_objects ne ∙ h, r);
      none_new = λ j b h r. elim (put_cases t j c0 c b f found h) [
        | inl (e, q) ↦ (let q' = ap (related_constraint i) q in grind arith)
        | inr (e, q) ↦ (b, q, r)
      ];
    }

related_kind : (i : Text) (b : Body) → related_constraint i b ≡ true → is_tag b ≡ false
unfolding related_constraint
related_kind i (resource children p) r = refl
related_kind i (constraint c) r = refl
related_kind i (tag refs) r = grind arith
related_kind i other r = refl

Fewer-related : (i : Text) (b' b : Body) → Fewer b' b → related_constraint i b' ≡ true → b' ≡ b
Fewer-related i b' b w r = w.equal (related_kind i b' r)

unrelated-Fewer :
    (i : Text) (b' b : Body) → Fewer b' b → related_tag i b ≡ false → related_tag i b' ≡ false
unrelated-Fewer i b' b w e = elim (Bool-cases (related_tag i b')) [
  | inr n ↦ n
  | inl y ↦ (let r = w.refs i y in grind arith)
]

-- A constraint that says nothing any more is removed.
pub Turn-Removed :
    (i : Text) (n : ℕ) (t : Text) (f f1 f2 : Factory)
    → Turn (related_constraint i) (Clear i n) NoneNew t f f1
    → Removed t f1 f2
    → Turn (related_constraint i) (Clear i n) NoneNew t f f2
unfolding related_constraint
Turn-Removed i n t f f1 f2 turn r =
    let clear = turn.holds in
    let k = r.kept in
    record {
      holds = record {
        holds = (
          k.unique,
          Kept-none t i f1.cib_objects f2.cib_objects k clear.holds.1,
          (let s = k.shorter in let l = clear.holds.2 in omega arith),
        );
        untagged = λ j b h.
            (let (b1, e, w) = k.back j b h in unrelated-Fewer i b b1 w (clear.untagged j b1 e));
        unmixed = λ j d h.
            (let (b, e, w) = k.back j (constraint d) h in
              clear.unmixed j d (e ∙ ap some (sym (w.equal refl))));
      };
      keeps = λ j b h. (let (b1, e, w) = k.back j b h in turn.keeps j b1 e);
      is_done = λ b h. (let g = r.gone in grind arith);
      others = λ j b ne h q.
          (let (b1, h1, q1) = turn.others j b ne h q in
            (b1, k.rest j b1 ne (related_kind i b1 q1) h1, q1));
      none_new = λ j b h q.
          (let (b1, e, w) = k.back j b h in
            turn.none_new j b1 e
              (subst (λ z. related_constraint i z ≡ true) (Fewer-related i b b1 w q) q));
    }
