-- ===== src/Cib/Tags.antt =====
-- The removal of an object that is no resource: the loop over the tags that refer to it.
use crmsh.Prelude.{
  ℕ, zero, suc, ◌≤◌, true, false, Option, none, some, List, [], ◌∷◌, ◌≡◌, refl, sym, ap, ◌∙◌, subst,
  arith, Text, same, is_empty, length, Bool-cases, inl, inr,
}
use crmsh.Cib.Constraint.{Constraint, delete_refs}
use crmsh.Cib.Factory.{
  Body, resource, constraint, tag, other, Obj, Factory, is_resource, related_tag, related, lookup,
  drop, unlink, detach, put, and_then, for_each, leave_tag, leave_constraints, remove_obj,
}
use crmsh.Cib.Objects.{
  lookup-drop_same, lookup-update_same, lookup-update_other, length-drop, Unique, drop-Unique,
}
use crmsh.Cib.Loop.{Turn, for_each-related}
use crmsh.Cib.Kept.{
  Kept, Kept-refl, Kept-trans, Kept-none, Kept-drop, Kept-update, Kept-tag, any_ref-delete_same,
  some_body, found_absent,
}

-- The object is gone, and no tag refers to it.
pub record Removed (i : Text) (f f' : Factory) : Type 0 where
  pub kept : Kept i f.cib_objects f'.cib_objects
  pub gone : lookup i f'.cib_objects ≡ none
  pub untagged : (j : Text) (b : Body) → lookup j f'.cib_objects ≡ some b → related_tag i b ≡ false

-- The removal of what is no resource, from at most `n` objects.
abbrev pub Removes : (Text → Factory → Option Factory) → ℕ → Type 0
Removes remove n =
    (i : Text) (b : Body) (f : Factory)
    → lookup i f.cib_objects ≡ some b
    → is_resource b ≡ false
    → Unique f.cib_objects
    → length f.cib_objects ≤ n
    → (f' : Factory) × (remove i f ≡ some f') × Removed i f f'

-- What holds while the references to an object that is gone are handled.
abbrev pub Holds : Text → ℕ → Factory → Type 0
Holds x n f = Unique f.cib_objects × (lookup x f.cib_objects ≡ none) × (length f.cib_objects ≤ n)

abbrev KeptFor : Text → Factory → Factory → Type 0
KeptFor x f f' = Kept x f.cib_objects f'.cib_objects

pub Kept-Holds : (x : Text) (n : ℕ) (f f' : Factory) → Holds x n f → KeptFor x f f' → Holds x n f'
Kept-Holds x n f f' (u, e, l) k =
    (k.unique, Kept-none x x f.cib_objects f'.cib_objects k e, (let s = k.shorter in omega arith))

Turn-of :
    (x : Text) (n : ℕ) (t : Text) (f f' : Factory)
    → Holds x n f
    → KeptFor x f f'
    → ((b : Body) → lookup t f'.cib_objects ≡ some b → related_tag x b ≡ false)
    → ((j : Text) (b : Body)
        → same t j ≡ false
        → lookup j f.cib_objects ≡ some b
        → related_tag x b ≡ true
        → (b' : Body) × (lookup j f'.cib_objects ≡ some b') × (related_tag x b' ≡ true))
    → Turn (related_tag x) (Holds x n) (KeptFor x) t f f'
Turn-of x n t f f' h k d o = record {
  holds = Kept-Holds x n f f' h k;
  keeps = k;
  is_done = d;
  others = o;
  none_new = λ j b' e r. (let (b, e0, w) = k.back j b' e in (b, e0, w.refs x r));
}

is_empty_eq : (l : List Text) → is_empty l ≡ true → l ≡ []
is_empty_eq [] e = refl
is_empty_eq (x ∷ l) e = grind arith

-- A tag that keeps a reference stays.
tag_stays :
    (x : Text) (n : ℕ) (t : Text) (refs : List Text) (f : Factory)
    → Holds x n f
    → lookup t f.cib_objects ≡ some (tag refs)
    → Turn (related_tag x) (Holds x n) (KeptFor x) t f (put t (tag (delete_refs x refs)) f)
unfolding related_tag
tag_stays x n t refs f h e =
    let left = tag (delete_refs x refs) in
    let l = f.cib_objects in
    let found = lookup-update_same t (tag refs) left l e in
    Turn-of x n t f (put t left f) h (Kept-update x t refs l h.0 e)
      (λ b p. ap (related_tag x) (some_body b left (sym p ∙ found)) ∙ any_ref-delete_same x refs)
      (λ j b ne p r. (b, lookup-update_other t j left l ne ∙ p, r))

-- A tag that has lost its last reference is removed.
tag_goes :
    (remove : Text → Factory → Option Factory) (x : Text) (n : ℕ) (t : Text) (refs : List Text)
    (f : Factory)
    → Removes remove n
    → Holds x n f
    → lookup t f.cib_objects ≡ some (tag refs)
    → delete_refs x refs ≡ []
    → (f' : Factory) × (remove t (put t (tag (delete_refs x refs)) f) ≡ some f')
      × Turn (related_tag x) (Holds x n) (KeptFor x) t f f'
tag_goes remove x n t refs f rm h e z =
    let left = tag (delete_refs x refs) in
    let l = f.cib_objects in
    let f1 = put t left f in
    let k1 = Kept-update x t refs l h.0 e in
    let found = lookup-update_same t (tag refs) left l e in
    let h1 : Holds x n f1 = Kept-Holds x n f f1 h k1 in
    let (f2, s, r) = rm t left f1 found refl h1.0 h1.2 in
    let k2 = Kept-tag x t f1.cib_objects f2.cib_objects r.kept (found ∙ ap (λ q. some (tag q)) z) in
    (
      f2,
      s,
      Turn-of x n t f f2 h (Kept-trans x l f1.cib_objects f2.cib_objects k1 k2)
          (λ b p. (let g = r.gone in grind arith))
          (λ j b ne p q.
            r.kept.stay x j b h1.1 (found_absent t x left f1.cib_objects found h1.1) ne
              (lookup-update_other t j left l ne ∙ p) q),
    )

leave_tag_lem :
    (remove : Text → Factory → Option Factory) (x t : Text) (refs : List Text) (f : Factory)
    → lookup t f.cib_objects ≡ some (tag refs)
    → leave_tag remove x t f ≡ (elim (is_empty (delete_refs x refs)) as (λ _. Option Factory) [
      | true ↦ remove t (put t (tag (delete_refs x refs)) f)
      | false ↦ some (put t (tag (delete_refs x refs)) f)
    ])
unfolding leave_tag
leave_tag_lem remove x t refs f e = rw (e, leave_tag) refl

leave_tag-tag :
    (remove : Text → Factory → Option Factory) (x : Text) (n : ℕ) (t : Text) (refs : List Text)
    (f : Factory)
    → Removes remove n
    → Holds x n f
    → lookup t f.cib_objects ≡ some (tag refs)
    → (f' : Factory) × (leave_tag remove x t f ≡ some f')
      × Turn (related_tag x) (Holds x n) (KeptFor x) t f f'
leave_tag-tag remove x n t refs f rm h e = elim (Bool-cases (is_empty (delete_refs x refs))) [
  | inl z ↦
      (let (f', s, r) = tag_goes remove x n t refs f rm h e (is_empty_eq (delete_refs x refs) z) in
        (f', leave_tag_lem remove x t refs f e ∙ rw z s, r))
  | inr z ↦ (
    put t (tag (delete_refs x refs)) f,
    leave_tag_lem remove x t refs f e ∙ rw z refl,
    tag_stays x n t refs f h e,
  )
]

pub leave_tag-Turn :
    (remove : Text → Factory → Option Factory) (x : Text) (n : ℕ)
    → Removes remove n
    → (t : Text) (b : Body) (f : Factory) → Holds x n f
    → lookup t f.cib_objects ≡ some b
    → related_tag x b ≡ true
    → (f' : Factory) × (leave_tag remove x t f ≡ some f')
      × Turn (related_tag x) (Holds x n) (KeptFor x) t f f'
unfolding related_tag
leave_tag-Turn remove x n rm t (resource c p) f h e r = grind arith
leave_tag-Turn remove x n rm t (constraint c) f h e r = grind arith
leave_tag-Turn remove x n rm t other f h e r = grind arith
leave_tag-Turn remove x n rm t (tag refs) f h e r = leave_tag-tag remove x n t refs f rm h e

-- The loop over the tags comes to its end, and no tag refers to the object then.
pub leave_tags :
    (remove : Text → Factory → Option Factory) (x : Text) (n : ℕ) (f : Factory)
    → Removes remove n
    → Holds x n f
    → (f' : Factory) × (for_each (leave_tag remove x) (related (related_tag x) f.cib_objects) f
        ≡ some f')
      × Removed x f f'
leave_tags remove x n f rm h =
    let (f', s, i, k, d) =
      for_each-related (related_tag x) (Holds x n) (KeptFor x)
        (λ g i. Kept-refl x g.cib_objects i.0)
        (λ g g' g2 k l. Kept-trans x g.cib_objects g'.cib_objects g2.cib_objects k l)
        (leave_tag remove x) (leave_tag-Turn remove x n rm) f h h.0 in
    (f', s, record { kept = k; gone = i.1; untagged = d })

pub drop-Holds :
    (x : Text) (n : ℕ) (b : Body) (l : List Obj) (queue : List Text)
    → lookup x l ≡ some b
    → Unique l
    → length l ≤ suc n
    → Holds x n (record { cib_objects = drop x l; remove_queue = queue })
drop-Holds x n b l queue e u le =
    (drop-Unique x l u, lookup-drop_same x l, (let s = length-drop x b l e in omega arith))

module _ (cli2node : Constraint → Option Constraint) where
  pub remove_obj_lem :
      (n : ℕ) (i : Text) (b : Body) (f : Factory)
      → lookup i f.cib_objects ≡ some b
      → remove_obj cli2node (suc n) i f
        ≡ and_then
            (for_each
              (leave_tag (remove_obj cli2node n) i)
              (related (related_tag i) (detach i b f).cib_objects)
              (detach i b f))
            (leave_constraints cli2node (remove_obj cli2node n) i b)
  unfolding remove_obj
  remove_obj_lem n i b f e = rw (e, remove_obj) refl

  remove_plain :
      (n : ℕ) (i : Text) (b : Body) (f : Factory)
      → Removes (remove_obj cli2node n) n
      → ((l : List Obj) → unlink i b l ≡ l)
      → ((g : Factory) → leave_constraints cli2node (remove_obj cli2node n) i b g ≡ some g)
      → lookup i f.cib_objects ≡ some b
      → Unique f.cib_objects
      → length f.cib_objects ≤ suc n
      → (f' : Factory) × (remove_obj cli2node (suc n) i f ≡ some f') × Removed i f f'
  unfolding detach
  remove_plain n i b f rm nolinks nocons e u le =
      let l = f.cib_objects in
      let f1 = detach i b f in
      let q : f1.cib_objects ≡ drop i l = ap (drop i) (nolinks l) in
      let h : Holds i n f1 =
        subst (λ z. Unique z × (lookup i z ≡ none) × (length z ≤ n)) (sym q)
          (drop-Holds i n b l [] e u le) in
      let (f2, s, r) = leave_tags (remove_obj cli2node n) i n f1 rm h in
      let k1 = subst (λ z. Kept i l z) (sym q) (Kept-drop i l u) in
      (
        f2,
        remove_obj_lem n i b f e
            ∙ ap (λ z. and_then z (leave_constraints cli2node (remove_obj cli2node n) i b)) s
            ∙ nocons f2,
        record {
          kept = Kept-trans i l f1.cib_objects f2.cib_objects k1 r.kept;
          gone = r.gone;
          untagged = r.untagged;
        },
      )

  -- What is no resource is removed, on fuel for the objects that there are.
  pub remove_obj-Removes : (n : ℕ) → Removes (remove_obj cli2node n) n
  unfolding leave_constraints unlink
  remove_obj-Removes zero i b f e nr u le = let s = length-drop i b f.cib_objects e in grind arith
  remove_obj-Removes (suc n) i (resource c p) f e nr u le = grind arith
  remove_obj-Removes (suc n) i (constraint c) f e nr u le =
      remove_plain n i (constraint c) f (remove_obj-Removes n) (λ l. refl) (λ g. refl) e u le
  remove_obj-Removes (suc n) i (tag refs) f e nr u le =
      remove_plain n i (tag refs) f (remove_obj-Removes n) (λ l. refl) (λ g. refl) e u le
  remove_obj-Removes (suc n) i other f e nr u le =
      remove_plain n i other f (remove_obj-Removes n) (λ l. refl) (λ g. refl) e u le
