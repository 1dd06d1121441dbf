-- ===== src/Cib/SetId.antt =====
-- The list of the objects after one has got another id.
use crmsh.Prelude.{
  true, false, none, some, List, [], ◌∷◌, ◌≡◌, refl, sym, ap, ◌∙◌, subst, arith, if◌then◌else◌,
  Text, same, same-eq, same_refl, Bool-cases, inl, inr,
}
use crmsh.Cib.Factory.{Body, Obj, lookup}
use crmsh.Cib.Kept.{some_body}
use crmsh.Cib.Rename.{new_id, rename_links, set_id}

renamed_absent : (old new i : Text) → same new old ≡ false → same (new_id old new i) old ≡ false
renamed_absent old new i n = elim (Bool-cases (same i old)) [ inl e ↦ rw e n | inr e ↦ rw e e ]

pub lookup-set_id_old :
    (old new : Text) (l : List Obj) → same new old ≡ false → lookup old (set_id old new l) ≡ none
unfolding lookup set_id
lookup-set_id_old old new [] n = refl
lookup-set_id_old old new (o ∷ l) n =
    rw (renamed_absent old new o.obj_id n) (lookup-set_id_old old new l n)

-- Behind an object with another id.
found_behind :
    (o : Obj) (l : List Obj) (i : Text) (b : Body)
    → same o.obj_id i ≡ false
    → lookup i (o ∷ l) ≡ some b
    → lookup i l ≡ some b
unfolding lookup
found_behind o l i b n e = subst (λ z. (if z then some o.body else lookup i l) ≡ some b) n e

found_first :
    (o : Obj) (l : List Obj) (i : Text) (b : Body)
    → same o.obj_id i ≡ true
    → lookup i (o ∷ l) ≡ some b
    → o.body ≡ b
unfolding lookup
found_first o l i b n e =
    some_body o.body b (subst (λ z. (if z then some o.body else lookup i l) ≡ some b) n e)

cons_first :
    (o : Obj) (l : List Obj) (i : Text) → same o.obj_id i ≡ true → lookup i (o ∷ l) ≡ some o.body
unfolding lookup
cons_first o l i n = rw n refl

cons_behind :
    (o : Obj) (l : List Obj) (i : Text) → same o.obj_id i ≡ false → lookup i (o ∷ l) ≡ lookup i l
unfolding lookup
cons_behind o l i n = rw n refl

nothing_found : (P : Type 0) (i : Text) (b : Body) → lookup i [] ≡ some b → P
unfolding lookup
nothing_found P i b e = grind arith

-- An object as `set_id` leaves it.
abbrev renamed : Text → Text → Obj → Obj
renamed old new o = record o {
  obj_id = new_id old new o.obj_id;
  body = rename_links old new o.body;
}

kept_id :
    (old new i j : Text) → same old j ≡ false → same i j ≡ true → same (new_id old new i) j ≡ true
kept_id old new i j n s = elim (Bool-cases (same i old)) [
  | inr e ↦ rw e s
  | inl e ↦ (let q = same-eq i old e in grind arith)
]

other_id :
    (old new i j : Text) → same new j ≡ false → same i j ≡ false → same (new_id old new i) j ≡ false
other_id old new i j m s = elim (Bool-cases (same i old)) [ inl e ↦ rw e m | inr e ↦ rw e s ]

not_first : (o : Obj) (l : List Obj) (i : Text) → lookup i (o ∷ l) ≡ none → same o.obj_id i ≡ false
not_first o l i n = elim (Bool-cases (same o.obj_id i)) [
  | inr e ↦ e
  | inl e ↦ (let f = cons_first o l i e in grind arith)
]

pub lookup-set_id_new :
    (old new : Text) (b : Body) (l : List Obj)
    → lookup new l ≡ none
    → lookup old l ≡ some b
    → lookup new (set_id old new l) ≡ some (rename_links old new b)
unfolding set_id
lookup-set_id_new old new b [] n e = nothing_found _ old b e
lookup-set_id_new old new b (o ∷ l) n e = elim (Bool-cases (same o.obj_id old)) [
  | inl s ↦
      (cons_first (renamed old new o) (set_id old new l) new (rw s (same_refl new))
        ∙ ap (λ z. some (rename_links old new z)) (found_first o l old b s e))
  | inr s ↦
      (let d = not_first o l new n in
        cons_behind (renamed old new o) (set_id old new l) new (rw s d)
        ∙ lookup-set_id_new old new b l (sym (cons_behind o l new d) ∙ n)
            (found_behind o l old b s e))
]

pub lookup-set_id_other :
    (old new j : Text) (b : Body) (l : List Obj)
    → same old j ≡ false
    → same new j ≡ false
    → lookup j l ≡ some b
    → lookup j (set_id old new l) ≡ some (rename_links old new b)
unfolding set_id
lookup-set_id_other old new j b [] n m e = nothing_found _ j b e
lookup-set_id_other old new j b (o ∷ l) n m e = elim (Bool-cases (same o.obj_id j)) [
  | inl s ↦
      cons_first (renamed old new o) (set_id old new l) j (kept_id old new o.obj_id j n s)
      ∙ ap (λ z. some (rename_links old new z)) (found_first o l j b s e)
  | inr s ↦
      cons_behind (renamed old new o) (set_id old new l) j (other_id old new o.obj_id j m s)
      ∙ lookup-set_id_other old new j b l n m (found_behind o l j b s e)
]

behind_id :
    (old new i k j : Text)
    → same (new_id old new i) j ≡ false
    → same (new_id old new k) j ≡ true
    → same i k ≡ false
behind_id old new i k j s t = elim (Bool-cases (same i k)) [
  | inr e ↦ e
  | inl e ↦ (let q = ap (λ z. same (new_id old new z) j) (same-eq i k e) in grind arith)
]

-- An object afterwards is one that was there before.
pub lookup-set_id_back :
    (old new j : Text) (b' : Body) (l : List Obj)
    → lookup j (set_id old new l) ≡ some b'
    → (k : Text) × (b : Body) × (lookup k l ≡ some b)
      × (b' ≡ rename_links old new b)
      × (same (new_id old new k) j ≡ true)
unfolding set_id
lookup-set_id_back old new j b' [] e = nothing_found _ j b' e
lookup-set_id_back old new j b' (o ∷ l) e = elim (Bool-cases (same (new_id old new o.obj_id) j)) [
  | inl s ↦ (
    o.obj_id,
    o.body,
    cons_first o l o.obj_id (same_refl o.obj_id),
    sym (found_first (renamed old new o) (set_id old new l) j b' s e),
    s,
  )
  | inr s ↦
      (let (k, b, h, q, t) =
          lookup-set_id_back old new j b' l
            (found_behind (renamed old new o) (set_id old new l) j b' s e) in
        (k, b, cons_behind o l k (behind_id old new o.obj_id k j s t) ∙ h, q, t))
]
