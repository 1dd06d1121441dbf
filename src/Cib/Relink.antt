-- ===== src/Cib/Relink.antt =====
-- `_relink_child_to_top` and the removal from the parent change nothing but resources.
use crmsh.Prelude.{
  suc, Bool, true, false, Option, none, some, List, [], ◌∷◌, ◌≡◌, refl, sym, ap, ◌∙◌, subst, arith,
  if◌then◌else◌, Text, same, length, Bool-cases, inl, inr,
}
use crmsh.Cib.Constraint.{any_ref}
use crmsh.Cib.Factory.{
  Body, resource, constraint, tag, other, Obj, is_resource, lookup, alter, relink_child,
  remove_child, relink, leave_parent, unlink,
}
use crmsh.Cib.Objects.{Unique}

-- The same objects, of which resources may differ.
pub record Relinked (l l' : List Obj) : Type 0 where
  pub same_length : length l' ≡ length l
  pub unique : Unique l → Unique l'
  pub none_new : (j : Text) → lookup j l ≡ none → lookup j l' ≡ none
  pub found : (j : Text) (b : Body) → lookup j l ≡ some b → (b' : Body) × (lookup j l' ≡ some b')
  pub back :
      (j : Text) (b' : Body)
      → lookup j l' ≡ some b'
      → (b : Body) × (lookup j l ≡ some b) × (is_resource b' ≡ false → b' ≡ b)

pub Relinked-refl : (l : List Obj) → Relinked l l
Relinked-refl l = record {
  same_length = refl;
  unique = λ u. u;
  none_new = λ j e. e;
  found = λ j b e. (b, e);
  back = λ j b e. (b, e, λ r. refl);
}

pub Relinked-trans : (l m r : List Obj) → Relinked l m → Relinked m r → Relinked l r
Relinked-trans l m r p q = record {
  same_length = q.same_length ∙ p.same_length;
  unique = λ u. q.unique (p.unique u);
  none_new = λ j e. q.none_new j (p.none_new j e);
  found = λ j b e. (let (b1, e1) = p.found j b e in q.found j b1 e1);
  back = λ j b e.
      (let (b1, e1, w1) = q.back j b e in
        let (b0, e0, w0) = p.back j b1 e1 in
        (b0, e0, λ n. w1 n ∙ w0 (subst (λ z. is_resource z ≡ false) (w1 n) n)));
}

some_head :
    (t : Bool) (b b' : Body) (rest : Option Body)
    → t ≡ true
    → (if t then some b else rest) ≡ some b'
    → b ≡ b'
some_head true b b' rest s e = grind arith
some_head false b b' rest s e = grind arith

-- A change of resources.
abbrev OnResources : (Body → Body) → Type 0
OnResources change = (b : Body) → is_resource (change b) ≡ false → change b ≡ b

module _ (at : Text → Bool) (change : Body → Body) (on : OnResources change) where
  head_eq :
      (o : Obj) (j : Text) (rest : Option Body)
      → (b : Body) × ((if same
              (if at o.obj_id then record o { body = change o.body } else o).obj_id
              j
            then some (if at o.obj_id then record o { body = change o.body } else o).body
            else rest)
          ≡ (if same o.obj_id j then some b else rest))
        × (is_resource b ≡ false → b ≡ o.body)
  head_eq o j rest = elim (Bool-cases (at o.obj_id)) [
    | inl e ↦ (change o.body, rw e refl, on o.body)
    | inr e ↦ (o.body, rw e refl, λ r. refl)
  ]

  lookup-alter-none :
      (j : Text) (l : List Obj) → lookup j l ≡ none → lookup j (alter at change l) ≡ none
  unfolding lookup alter
  lookup-alter-none j [] e = e
  lookup-alter-none j (o ∷ l) e =
      let (b, q, w) = head_eq o j (lookup j (alter at change l)) in
      elim (Bool-cases (same o.obj_id j)) [
        | inl s ↦
            (let e' = subst (λ z. (if z then some o.body else lookup j l) ≡ none) s e in
              grind arith)
        | inr s ↦
            q
            ∙ rw s (
                lookup-alter-none j l
                  (subst (λ z. (if z then some o.body else lookup j l) ≡ none) s e))
      ]

  lookup-alter_found :
      (j : Text) (b : Body) (l : List Obj)
      → lookup j l ≡ some b
      → (b' : Body) × (lookup j (alter at change l) ≡ some b')
  unfolding lookup alter
  lookup-alter_found j b [] e = grind arith
  lookup-alter_found j b (o ∷ l) e =
      let (b1, q, w) = head_eq o j (lookup j (alter at change l)) in
      elim (Bool-cases (same o.obj_id j)) [
        | inl s ↦ (b1, q ∙ rw s refl)
        | inr s ↦
            (let (b', e') =
                lookup-alter_found j b l
                  (subst (λ z. (if z then some o.body else lookup j l) ≡ some b) s e) in
              (b', q ∙ rw s e'))
      ]

  lookup-alter_back :
      (j : Text) (b' : Body) (l : List Obj)
      → lookup j (alter at change l) ≡ some b'
      → (b : Body) × (lookup j l ≡ some b) × (is_resource b' ≡ false → b' ≡ b)
  unfolding lookup alter
  lookup-alter_back j b' [] e = grind arith
  lookup-alter_back j b' (o ∷ l) e =
      let (b1, q, w) = head_eq o j (lookup j (alter at change l)) in
      let e1 = sym q ∙ e in
      elim (Bool-cases (same o.obj_id j)) [
        | inl s ↦
            (let p : b1 ≡ b' =
                some_head (same o.obj_id j) b1 b' (lookup j (alter at change l)) s e1 in
              (o.body, rw s refl, subst (λ z. is_resource z ≡ false → z ≡ o.body) p w))
        | inr s ↦
            (let (b, e0, w0) = lookup-alter_back j b' l (
                subst (λ z. (if z then some b1 else lookup j (alter at change l)) ≡ some b') s
                  e1) in
              (b, rw s e0, w0))
      ]

  alter-Unique : (l : List Obj) → Unique l → Unique (alter at change l)
  unfolding alter
  alter-Unique [] u = u
  alter-Unique (o ∷ l) u = elim (Bool-cases (at o.obj_id)) [
    | inl e ↦ rw e (lookup-alter-none o.obj_id l u.0, alter-Unique l u.1)
    | inr e ↦ rw e (lookup-alter-none o.obj_id l u.0, alter-Unique l u.1)
  ]

  length-alter : (l : List Obj) → length (alter at change l) ≡ length l
  unfolding alter
  length-alter [] = refl
  length-alter (o ∷ l) = ap suc (length-alter l)

  alter-Relinked : (l : List Obj) → Relinked l (alter at change l)
  alter-Relinked l = record {
    same_length = length-alter l;
    unique = alter-Unique l;
    none_new = λ j e. lookup-alter-none j l e;
    found = λ j b e. lookup-alter_found j b l e;
    back = λ j b e. lookup-alter_back j b l e;
  }

relink_child_lem : OnResources relink_child
relink_child_lem (resource children parent) e = grind arith
relink_child_lem (constraint c) e = refl
relink_child_lem (tag refs) e = refl
relink_child_lem other e = refl

remove_child_lem : (i : Text) → OnResources (remove_child i)
remove_child_lem i (resource children parent) e = grind arith
remove_child_lem i (constraint c) e = refl
remove_child_lem i (tag refs) e = refl
remove_child_lem i other e = refl

leave_parent-Relinked :
    (i : Text) (p : Option Text) (l : List Obj) → Relinked l (leave_parent i p l)
unfolding leave_parent
leave_parent-Relinked i none l = Relinked-refl l
leave_parent-Relinked i (some p) l =
    alter-Relinked (λ j. same j p) (remove_child i) (remove_child_lem i) l

pub unlink-Relinked :
    (i : Text) (children : List Text) (p : Option Text) (l : List Obj)
    → Relinked l (unlink i (resource children p) l)
unfolding unlink relink
unlink-Relinked i children p l =
    Relinked-trans l (relink children l) (leave_parent i p (relink children l))
      (alter-Relinked (λ j. any_ref j children) relink_child relink_child_lem l)
      (leave_parent-Relinked i p (relink children l))
