-- ===== src/Cib/Loop.antt =====
-- A loop of `_remove_obj` over the related objects that were found before it.
use crmsh.Prelude.{
  Bool, true, false, ◌||◌, Option, some, List, [], ◌∷◌, ◌≡◌, refl, sym, ap, ◌∙◌, subst, arith, Text,
  same, same-eq, same_refl, Bool-cases, inl, inr,
}
use crmsh.Cib.Constraint.{any_ref}
use crmsh.Cib.Factory.{Body, Factory, related, lookup, and_then, for_each}
use crmsh.Cib.Objects.{Unique, NoDup, lookup-related, related-lookup, related-NoDup}

-- What one turn of the loop, for the object `t`, does: `test` is what makes an object related, `inv` what
-- holds throughout, `kept` how the objects may change.
pub record Turn (test : Body → Bool) (inv : Factory → Type 0) (kept : Factory → Factory → Type 0)
    (t : Text) (f f' : Factory) : Type 0 where
  pub holds : inv f'
  pub keeps : kept f f'
  pub is_done : (b : Body) → lookup t f'.cib_objects ≡ some b → test b ≡ false
  pub others :
      (j : Text) (b : Body)
      → same t j ≡ false
      → lookup j f.cib_objects ≡ some b
      → test b ≡ true
      → (b' : Body) × (lookup j f'.cib_objects ≡ some b') × (test b' ≡ true)
  pub none_new :
      (j : Text) (b' : Body)
      → lookup j f'.cib_objects ≡ some b'
      → test b' ≡ true
      → (b : Body) × (lookup j f.cib_objects ≡ some b) × (test b ≡ true)

not_in_tail :
    (t j : Text) (l : List Text) → any_ref t l ≡ false → any_ref j l ≡ true → same t j ≡ false
not_in_tail t j l n h = elim (Bool-cases (same t j)) [
  | inr e ↦ e
  | inl e ↦ (let x = same-eq t j e in grind arith)
]

module _ (test : Body → Bool) (inv : Factory → Type 0) (kept : Factory → Factory → Type 0)
    (reflexive : (f : Factory) → inv f → kept f f)
    (transitive : (f g h : Factory) → kept f g → kept g h → kept f h)
    (step : Text → Factory → Option Factory)
    (turn : (t : Text) (b : Body) (f : Factory)
      → inv f
      → lookup t f.cib_objects ≡ some b
      → test b ≡ true
      → (f' : Factory) × (step t f ≡ some f') × Turn test inv kept t f f') where
  abbrev Pending : List Text → Factory → Type 0
  Pending l f =
      (j : Text)
      → any_ref j l ≡ true
      → (b : Body) × (lookup j f.cib_objects ≡ some b) × (test b ≡ true)

  abbrev Covered : List Text → Factory → Type 0
  Covered l f =
      (j : Text) (b : Body) → lookup j f.cib_objects ≡ some b → test b ≡ true → any_ref j l ≡ true

  abbrev pub Ends : (Factory → Option Factory) → Factory → Type 0
  Ends run f =
      (f' : Factory) × (run f ≡ some f')
      × inv f'
      × kept f f'
      × ((j : Text) (b : Body) → lookup j f'.cib_objects ≡ some b → test b ≡ false)

  Covered-tail :
      (t : Text) (l : List Text) (f f' : Factory)
      → Turn test inv kept t f f'
      → Covered (t ∷ l) f
      → Covered l f'
  unfolding any_ref
  Covered-tail t l f f' r c j b h e =
      let (b0, h0, e0) = r.none_new j b h e in
      let m = c j b0 h0 e0 in
      elim (Bool-cases (same t j)) [
        | inr n ↦ subst (λ x. x || any_ref j l ≡ true) n m
        | inl n ↦
            (let d =
                r.is_done b
                  (subst (λ x. lookup x f'.cib_objects ≡ some b) (sym (same-eq t j n)) h) in
              grind arith)
      ]

  loop_lem :
      (l : List Text) (f : Factory)
      → inv f
      → NoDup l
      → Pending l f
      → Covered l f
      → Ends (for_each step l) f
  unfolding for_each any_ref
  loop_lem [] f i n p c = (
    f,
    refl,
    i,
    reflexive f i,
    λ j b h. elim (Bool-cases (test b)) [ inr e ↦ e | inl e ↦ (let m = c j b h e in grind arith) ],
  )
  loop_lem (t ∷ l) f i n p c =
      let (b, h, e) = p t (ap (λ x. x || any_ref t l) (same_refl t)) in
      let (f1, s, r) = turn t b f i h e in
      let pending : Pending l f1 = λ j m.
        (let ne = not_in_tail t j l n.0 m in
          let (b0, h0, e0) = p j (subst (λ x. x || any_ref j l ≡ true) (sym ne) m) in
          r.others j b0 ne h0 e0) in
      let (f2, s2, i2, k2, d2) = loop_lem l f1 r.holds n.1 pending (Covered-tail t l f f1 r c) in
      (f2, ap (λ x. and_then x (for_each step l)) s ∙ s2, i2, transitive f f1 f2 r.keeps k2, d2)

  -- The loop over all the related objects comes to its end, and none is related then.
  pub for_each-related :
      (f : Factory)
      → inv f
      → Unique f.cib_objects
      → Ends (for_each step (related test f.cib_objects)) f
  for_each-related f i u =
      loop_lem (related test f.cib_objects) f i (related-NoDup test f.cib_objects u)
        (λ j m. related-lookup test j f.cib_objects u m)
        (λ j b h e. lookup-related test j b f.cib_objects h e)
