-- ===== src/Cib/Kept.antt =====
-- How the objects may change while `_remove_obj` handles the references to one of them.
use crmsh.Prelude.{
  ◌≤◌, true, false, ◌||◌, Option, none, some, List, [], ◌∷◌, ◌≡◌, refl, sym, ap, ◌∙◌, subst, arith,
  Text, same, same-eq, if◌then◌else◌, length, Bool-cases, Option-cases, inl, inr,
}
use crmsh.Cib.Constraint.{any_ref, delete_refs}
use crmsh.Cib.Factory.{Body, tag, Obj, is_tag, related_tag, lookup, update, drop}
use crmsh.Cib.Objects.{
  lookup-drop_same, lookup-drop_other, lookup-update_same, lookup-update_other, length-update,
  length-drop_le, Unique, drop-Unique, update-Unique,
}

-- A tag may lose references; anything else stays as it is.
pub record Fewer (b' b : Body) : Type 0 where
  pub refs : (y : Text) → related_tag y b' ≡ true → related_tag y b ≡ true
  pub equal : is_tag b' ≡ false → b' ≡ b

-- No object and no reference is new; apart from the object `x` and the references to it, only tags go
-- and only references to objects that were there.
pub record Kept (x : Text) (f f' : List Obj) : Type 0 where
  pub back :
      (j : Text) (b' : Body)
      → lookup j f' ≡ some b'
      → (b : Body) × (lookup j f ≡ some b) × Fewer b' b
  pub stay :
      (y j : Text) (b : Body)
      → lookup y f ≡ none
      → same x y ≡ false
      → same x j ≡ false
      → lookup j f ≡ some b
      → related_tag y b ≡ true
      → (b' : Body) × (lookup j f' ≡ some b') × (related_tag y b' ≡ true)
  pub rest :
      (j : Text) (b : Body)
      → same x j ≡ false
      → is_tag b ≡ false
      → lookup j f ≡ some b
      → lookup j f' ≡ some b
  pub unique : Unique f'
  pub shorter : length f' ≤ length f

pub Fewer-refl : (b : Body) → Fewer b b
Fewer-refl b = record { refs = λ y h. h; equal = λ h. refl }

pub Kept-refl : (x : Text) (f : List Obj) → Unique f → Kept x f f
Kept-refl x f u = record {
  back = λ j b h. (b, h, Fewer-refl b);
  stay = λ y j b n e e' h r. (b, h, r);
  rest = λ j b e t h. h;
  unique = u;
  shorter = omega arith;
}

-- An absent object stays absent.
pub Kept-none :
    (x y : Text) (f f' : List Obj) → Kept x f f' → lookup y f ≡ none → lookup y f' ≡ none
Kept-none x y f f' k n = elim (Option-cases (lookup y f')) [
  | inl e ↦ e
  | inr (b', e) ↦ (let (b, h, w) = k.back y b' e in grind arith)
]

pub Kept-trans : (x : Text) (f g h : List Obj) → Kept x f g → Kept x g h → Kept x f h
Kept-trans x f g h k l = record {
  back = λ j b e.
      (let (b1, e1, w1) = l.back j b e in
        let (b0, e0, w0) = k.back j b1 e1 in
        (
          b0,
          e0,
          record {
            refs = λ y r. w0.refs y (w1.refs y r);
            equal = λ t. w1.equal t ∙ w0.equal (subst (λ z. is_tag z ≡ false) (w1.equal t) t);
          },
        ));
  stay = λ y j b n e e' p r.
      (let (b1, p1, r1) = k.stay y j b n e e' p r in
        l.stay y j b1 (Kept-none x y f g k n) e e' p1 r1);
  rest = λ j b e t p. l.rest j b e t (k.rest j b e t p);
  unique = l.unique;
  shorter = (let s = k.shorter in let s' = l.shorter in omega arith);
}

pub found-drop :
    (x j : Text) (b : Body) (f : List Obj) → lookup j (drop x f) ≡ some b → lookup j f ≡ some b
found-drop x j b f h = elim (Bool-cases (same x j)) [
  | inr e ↦ sym (lookup-drop_other x j f e) ∙ h
  | inl e ↦ (let d = lookup-drop_same x f in let q = same-eq x j e in grind arith)
]

-- The object itself is dropped.
pub Kept-drop : (x : Text) (f : List Obj) → Unique f → Kept x f (drop x f)
Kept-drop x f u = record {
  back = λ j b h. (b, found-drop x j b f h, Fewer-refl b);
  stay = λ y j b n e e' h r. (b, lookup-drop_other x j f e' ∙ h, r);
  rest = λ j b e t h. lookup-drop_other x j f e ∙ h;
  unique = drop-Unique x f u;
  shorter = length-drop_le x f;
}

any_ref-delete_refs :
    (y x : Text) (refs : List Text) → any_ref y (delete_refs x refs) ≡ true → any_ref y refs ≡ true
unfolding any_ref delete_refs
any_ref-delete_refs y x [] h = h
any_ref-delete_refs y x (r ∷ refs) h = elim (Bool-cases (same r y)) [
  | inl e ↦ rw e refl
  | inr e ↦ (elim (Bool-cases (same r x)) [
    | inl d ↦ rw e (
        any_ref-delete_refs y x refs (
          subst (λ b. any_ref y (if b then delete_refs x refs else r ∷ delete_refs x refs) ≡ true) d
            h))
    | inr d ↦ rw e (
        any_ref-delete_refs y x refs (
          subst (λ b. b || any_ref y (delete_refs x refs) ≡ true) e
            (subst
              (λ b. any_ref y (if b then delete_refs x refs else r ∷ delete_refs x refs) ≡ true) d
              h)))
  ])
]

any_ref-delete_other :
    (y x : Text) (refs : List Text)
    → same x y ≡ false
    → any_ref y (delete_refs x refs) ≡ any_ref y refs
unfolding any_ref delete_refs
any_ref-delete_other y x [] n = refl
any_ref-delete_other y x (r ∷ refs) n = elim (Bool-cases (same r x)) [
  | inl e ↦ rw (e, any_ref-delete_other y x refs n, same-eq r x e, n) refl
  | inr e ↦ rw e (rw (any_ref-delete_other y x refs n) refl)
]

pub any_ref-delete_same : (x : Text) (refs : List Text) → any_ref x (delete_refs x refs) ≡ false
unfolding any_ref delete_refs
any_ref-delete_same x [] = refl
any_ref-delete_same x (r ∷ refs) = elim (Bool-cases (same r x)) [
  | inl e ↦ rw e (any_ref-delete_same x refs)
  | inr e ↦ rw e (rw e (any_ref-delete_same x refs))
]

pub found_absent :
    (t y : Text) (b : Body) (f : List Obj)
    → lookup t f ≡ some b
    → lookup y f ≡ none
    → same t y ≡ false
found_absent t y b f h n = elim (Bool-cases (same t y)) [
  | inr e ↦ e
  | inl e ↦ (let q = same-eq t y e in grind arith)
]

same_body :
    (t j : Text) (c b : Body) (f : List Obj)
    → lookup t f ≡ some c
    → lookup j f ≡ some b
    → same t j ≡ true
    → c ≡ b
same_body t j c b f h p e = let q = same-eq t j e in grind arith

other_kind :
    (t j : Text) (refs : List Text) (b : Body) (f : List Obj)
    → lookup t f ≡ some (tag refs)
    → is_tag b ≡ false
    → lookup j f ≡ some b
    → same t j ≡ false
other_kind t j refs b f h i p = elim (Bool-cases (same t j)) [
  | inr e ↦ e
  | inl e ↦ (let q = ap is_tag (same_body t j (tag refs) b f h p e) in grind arith)
]

unrelated_other :
    (t j y : Text) (b : Body) (f : List Obj)
    → lookup t f ≡ some (tag [])
    → lookup j f ≡ some b
    → related_tag y b ≡ true
    → same t j ≡ false
unfolding related_tag any_ref
unrelated_other t j y b f h p r = elim (Bool-cases (same t j)) [
  | inr e ↦ e
  | inl e ↦ (let q = ap (related_tag y) (same_body t j (tag []) b f h p e) in grind arith)
]

tag-Fewer : (x : Text) (refs : List Text) → Fewer (tag (delete_refs x refs)) (tag refs)
unfolding related_tag
tag-Fewer x refs = record { refs = λ y r. any_ref-delete_refs y x refs r; equal = λ e. grind arith }

pub some_body : (b c : Body) → ◌≡◌ {A = Option Body} (some b) (some c) → b ≡ c
some_body b c e = grind arith

update_back :
    (x t : Text) (refs : List Text) (f : List Obj)
    → lookup t f ≡ some (tag refs)
    → (j : Text) (b' : Body) → lookup j (update t (tag (delete_refs x refs)) f) ≡ some b'
    → (b : Body) × (lookup j f ≡ some b) × Fewer b' b
update_back x t refs f h j b' e =
    let left = tag (delete_refs x refs) in
    elim (Bool-cases (same t j)) [
      | inr n ↦ (b', sym (lookup-update_other t j left f n) ∙ e, Fewer-refl b')
      | inl n ↦
          (let q : t ≡ j = same-eq t j n in
            let found : lookup j (update t left f) ≡ some left =
              subst (λ z. lookup z (update t left f) ≡ some left) q
                (lookup-update_same t (tag refs) left f h) in
            (
              tag refs,
              subst (λ z. lookup z f ≡ some (tag refs)) q h,
              subst (λ z. Fewer z (tag refs)) (some_body left b' (sym found ∙ e))
                  (tag-Fewer x refs),
            ))
    ]

update_stay :
    (x t : Text) (refs : List Text) (f : List Obj)
    → lookup t f ≡ some (tag refs)
    → (y j : Text) (b : Body) → same x y ≡ false
    → lookup j f ≡ some b
    → related_tag y b ≡ true
    → (b' : Body) × (lookup j (update t (tag (delete_refs x refs)) f) ≡ some b')
      × (related_tag y b' ≡ true)
unfolding related_tag
update_stay x t refs f h y j b e p r =
    let left = tag (delete_refs x refs) in
    elim (Bool-cases (same t j)) [
      | inr n ↦ (b, lookup-update_other t j left f n ∙ p, r)
      | inl n ↦ (
        left,
        subst (λ z. lookup z (update t left f) ≡ some left) (same-eq t j n)
            (lookup-update_same t (tag refs) left f h),
        any_ref-delete_other y x refs e
            ∙ ap (related_tag y) (same_body t j (tag refs) b f h p n)
            ∙ r,
      )
    ]

-- A tag loses the object.
pub Kept-update :
    (x t : Text) (refs : List Text) (f : List Obj)
    → Unique f
    → lookup t f ≡ some (tag refs)
    → Kept x f (update t (tag (delete_refs x refs)) f)
Kept-update x t refs f u h = record {
  back = update_back x t refs f h;
  stay = λ y j b n e e' p r. update_stay x t refs f h y j b e p r;
  rest = λ j b e i p.
      lookup-update_other t j (tag (delete_refs x refs)) f (other_kind t j refs b f h i p) ∙ p;
  unique = update-Unique t (tag (delete_refs x refs)) f u;
  shorter = (let e = length-update t (tag (delete_refs x refs)) f in omega arith);
}

-- An empty tag is removed.
pub Kept-tag : (x t : Text) (f g : List Obj) → Kept t f g → lookup t f ≡ some (tag []) → Kept x f g
unfolding related_tag any_ref
Kept-tag x t f g k h = record {
  back = k.back;
  stay = λ y j b n e e' p r.
      k.stay y j b n (found_absent t y (tag []) f h n) (unrelated_other t j y b f h p r) p r;
  rest = λ j b e i p. k.rest j b (other_kind t j [] b f h i p) i p;
  unique = k.unique;
  shorter = k.shorter;
}
