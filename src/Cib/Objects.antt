-- ===== src/Cib/Objects.antt =====
-- The list of the objects: what is found in it after an object has been changed or dropped.
use crmsh.Prelude.{
  suc, ◌<◌, ◌≤◌, Bool, true, false, ◌||◌, Option, none, some, List, [], ◌∷◌, if◌then◌else◌, ◌≡◌,
  refl, ap, ◌∙◌, subst, arith, Text, same, same-eq, length, Bool-cases, ◌⊎◌, inl, inr,
}
use crmsh.Cib.Constraint.{any_ref}
use crmsh.Cib.Factory.{Body, Obj, related, lookup, update, drop}

lookup_cases :
    (b : Bool) (x : Body) (o : Option Body) (y : Body)
    → (if b then some x else o) ≡ some y
    → ((b ≡ true) × (x ≡ y)) ⊎ ((b ≡ false) × (o ≡ some y))
lookup_cases true x o y e = inl (refl, grind arith)
lookup_cases false x o y e = inr (refl, e)

none_cases :
    (b : Bool) (x : Body) (o : Option Body)
    → (if b then some x else o) ≡ none
    → (b ≡ false) × (o ≡ none)
none_cases true x o e = grind arith
none_cases false x o e = (refl, e)

pub lookup-drop_same : (i : Text) (l : List Obj) → lookup i (drop i l) ≡ none
unfolding lookup drop
lookup-drop_same i [] = refl
lookup-drop_same i (o ∷ l) = elim (Bool-cases (same o.obj_id i)) [
  | inl e ↦ rw e (lookup-drop_same i l)
  | inr e ↦ rw e (rw e (lookup-drop_same i l))
]

pub lookup-drop_other :
    (i j : Text) (l : List Obj) → same i j ≡ false → lookup j (drop i l) ≡ lookup j l
unfolding lookup drop
lookup-drop_other i j [] h = refl
lookup-drop_other i j (o ∷ l) h = elim (Bool-cases (same o.obj_id i)) [
  | inl e ↦ rw (e, lookup-drop_other i j l h, same-eq o.obj_id i e, h) refl
  | inr e ↦ rw (e, lookup-drop_other i j l h) refl
]

pub lookup-update_same :
    (i : Text) (b0 b : Body) (l : List Obj)
    → lookup i l ≡ some b0
    → lookup i (update i b l) ≡ some b
unfolding lookup update
lookup-update_same i b0 b [] h = grind arith
lookup-update_same i b0 b (o ∷ l) h = elim (Bool-cases (same o.obj_id i)) [
  | inl e ↦ rw e (rw e refl)
  | inr e ↦ rw e (
      rw e (
        lookup-update_same i b0 b l
          (subst (λ x. (if x then some o.body else lookup i l) ≡ some b0) e h)))
]

pub lookup-update_other :
    (i j : Text) (b : Body) (l : List Obj) → same i j ≡ false → lookup j (update i b l) ≡ lookup j l
unfolding lookup update
lookup-update_other i j b [] h = refl
lookup-update_other i j b (o ∷ l) h = elim (Bool-cases (same o.obj_id i)) [
  | inl e ↦ rw (e, lookup-update_other i j b l h, same-eq o.obj_id i e, h) refl
  | inr e ↦ rw (e, lookup-update_other i j b l h) refl
]

pub length-update : (i : Text) (b : Body) (l : List Obj) → length (update i b l) ≡ length l
unfolding update
length-update i b [] = refl
length-update i b (o ∷ l) = ap suc (length-update i b l)

pub length-drop_le : (i : Text) (l : List Obj) → length (drop i l) ≤ length l
unfolding drop
length-drop_le i [] = omega arith
length-drop_le i (o ∷ l) =
    let h = length-drop_le i l in
    elim (Bool-cases (same o.obj_id i)) [ inl e ↦ rw e (omega arith) | inr e ↦ rw e (omega arith) ]

pub length-drop :
    (i : Text) (b : Body) (l : List Obj) → lookup i l ≡ some b → length (drop i l) < length l
unfolding lookup drop
length-drop i b [] h = grind arith
length-drop i b (o ∷ l) h = elim (lookup_cases (same o.obj_id i) o.body (lookup i l) b h) [
  | inl (e, q) ↦ (let h1 = length-drop_le i l in rw e (omega arith))
  | inr (e, q) ↦ (let h1 = length-drop i b l q in rw e (omega arith))
]

-- No two objects have the same id.
abbrev pub Unique : List Obj → Type 0
Unique [] = Unit
Unique (o ∷ l) = (lookup o.obj_id l ≡ none) × Unique l

lookup-drop-none : (i j : Text) (l : List Obj) → lookup j l ≡ none → lookup j (drop i l) ≡ none
lookup-drop-none i j l h = elim (Bool-cases (same i j)) [
  | inl e ↦ subst (λ x. lookup x (drop i l) ≡ none) (same-eq i j e) (lookup-drop_same i l)
  | inr e ↦ lookup-drop_other i j l e ∙ h
]

pub lookup-update-none :
    (i j : Text) (b : Body) (l : List Obj) → lookup j l ≡ none → lookup j (update i b l) ≡ none
unfolding lookup update
lookup-update-none i j b [] h = refl
lookup-update-none i j b (o ∷ l) h =
    let (n, q) = none_cases (same o.obj_id j) o.body (lookup j l) h in
    elim (Bool-cases (same o.obj_id i)) [
      | inl e ↦ rw (e, lookup-update-none i j b l q) (rw n refl)
      | inr e ↦ rw (e, lookup-update-none i j b l q) (rw n refl)
    ]

pub drop-Unique : (i : Text) (l : List Obj) → Unique l → Unique (drop i l)
unfolding drop
drop-Unique i [] u = u
drop-Unique i (o ∷ l) u = elim (Bool-cases (same o.obj_id i)) [
  | inl e ↦ rw e (drop-Unique i l u.1)
  | inr e ↦ rw e (lookup-drop-none i o.obj_id l u.0, drop-Unique i l u.1)
]

pub update-Unique : (i : Text) (b : Body) (l : List Obj) → Unique l → Unique (update i b l)
unfolding update
update-Unique i b [] u = u
update-Unique i b (o ∷ l) u = elim (Bool-cases (same o.obj_id i)) [
  | inl e ↦ rw e (lookup-update-none i o.obj_id b l u.0, update-Unique i b l u.1)
  | inr e ↦ rw e (lookup-update-none i o.obj_id b l u.0, update-Unique i b l u.1)
]

-- What is found behind an object has another id.
tail_other :
    (o : Obj) (l : List Obj) (i : Text) (b : Body)
    → Unique (o ∷ l)
    → lookup i l ≡ some b
    → same o.obj_id i ≡ false
tail_other o l i b u q = elim (Bool-cases (same o.obj_id i)) [
  | inr e ↦ e
  | inl e ↦ (let n = u.0 in let x = same-eq o.obj_id i e in grind arith)
]

-- What is found is related where the test says so, and the other way round.
pub lookup-related :
    (p : Body → Bool) (i : Text) (b : Body) (l : List Obj)
    → lookup i l ≡ some b
    → p b ≡ true
    → any_ref i (related p l) ≡ true
unfolding lookup related any_ref
lookup-related p i b [] h t = grind arith
lookup-related p i b (o ∷ l) h t = elim (lookup_cases (same o.obj_id i) o.body (lookup i l) b h) [
  | inl (e, q) ↦ rw (q, t) (rw e refl)
  | inr (e, q) ↦ (elim (Bool-cases (p o.body)) [
    | inl f ↦ rw f (rw e (lookup-related p i b l q t))
    | inr f ↦ rw f (lookup-related p i b l q t)
  ])
]

pub related-lookup :
    (p : Body → Bool) (i : Text) (l : List Obj)
    → Unique l
    → any_ref i (related p l) ≡ true
    → (b : Body) × (lookup i l ≡ some b) × (p b ≡ true)
unfolding lookup related any_ref
related-lookup p i [] u h = grind arith
related-lookup p i (o ∷ l) u h = elim (Bool-cases (p o.body)) [
  | inl f ↦ (elim (Bool-cases (same o.obj_id i)) [
    | inl e ↦ (o.body, rw e refl, f)
    | inr e ↦
        (let (b, q, t) = related-lookup p i l u.1 (
            subst (λ x. x || any_ref i (related p l) ≡ true) e
              (subst (λ x. any_ref i (if x then o.obj_id ∷ related p l else related p l) ≡ true) f
                h)) in
          (b, rw e q, t))
  ])
  | inr f ↦
      (let (b, q, t) =
          related-lookup p i l u.1 (
            subst (λ x. any_ref i (if x then o.obj_id ∷ related p l else related p l) ≡ true) f
              h) in
        (b, rw (tail_other o l i b u q) q, t))
]

abbrev pub NoDup : List Text → Type 0
NoDup [] = Unit
NoDup (x ∷ l) = (any_ref x l ≡ false) × NoDup l

unrelated :
    (p : Body → Bool) (o : Obj) (l : List Obj)
    → Unique (o ∷ l)
    → any_ref o.obj_id (related p l) ≡ false
unrelated p o l u = elim (Bool-cases (any_ref o.obj_id (related p l))) [
  | inr e ↦ e
  | inl e ↦ (let (b, q, t) = related-lookup p o.obj_id l u.1 e in let n = u.0 in grind arith)
]

pub related-NoDup : (p : Body → Bool) (l : List Obj) → Unique l → NoDup (related p l)
unfolding related
related-NoDup p [] u = u
related-NoDup p (o ∷ l) u = elim (Bool-cases (p o.body)) [
  | inl f ↦ rw f (unrelated p o l u, related-NoDup p l u.1)
  | inr f ↦ rw f (related-NoDup p l u.1)
]
