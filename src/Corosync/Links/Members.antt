-- ===== src/Corosync/Links/Members.antt =====
-- The nodes of a link as a list: finding one, and setting its address; crmsh/corosync.py.
use crmsh.Prelude.{
  ℕ, ◌≡◌, ◌≢◌, refl, sym, ap, ◌∙◌, subst, true, false, Option, none, some, List, [], ◌∷◌, ◌==◌,
  ==_iff, Text, Bool-cases, ◌⊎◌, inl, inr, In,
}
use mathlib.Core.Option.{some_inj}
use crmsh.Prelude.Results.{ok, ok_inj}
use crmsh.Corosync.Links.State.{LinkNode, LinkError, find_id}
use crmsh.Corosync.Links.Reading.{or_raise}
use crmsh.Corosync.Links.Addresses.{find_node, set_address}

-- A mapping has no key twice.
abbrev pub IsMapping : List (ℕ × Text) → Type 0
IsMapping [] = Unit
IsMapping ((n, a) ∷ given) = (find_id n given ≡ none) × IsMapping given

-- An address that is in use already.
abbrev pub Known : ℕ → List (ℕ × ℕ) → Type 0
Known c known = (n : ℕ) × (find_id c known ≡ some n)

pub find_id-cons-Known :
    (c k v : ℕ) (known : List (ℕ × ℕ)) → Known c known → Known c ((k, v) ∷ known)
unfolding find_id
find_id-cons-Known c k v known (n, h) = elim (Bool-cases (k == c)) [
  | inl e ↦ (v, rw (e, find_id) refl)
  | inr e ↦ (n, rw (e, find_id) h)
]

pub find_id-head-Known : (c v : ℕ) (known : List (ℕ × ℕ)) → Known c ((c, v) ∷ known)
unfolding find_id
find_id-head-Known c v known = (v, rw ((==_iff c c).1 refl, find_id) refl)

pub or_raise-ok :
    {A : Type 0} (e : LinkError) (o : Option A) (x : A) → or_raise e o ≡ ok x → o ≡ some x
or_raise-ok e none x h = cc
or_raise-ok e (some y) x h = ap some (ok_inj y x h)

-- The first node of a list, where it is looked for and where it is not.
pub set_address-here :
    (n : ℕ) (a : Text) (x : LinkNode) (xs : List LinkNode)
    → (x.id == n) ≡ true
    → set_address n a (x ∷ xs) ≡ record x { address = a } ∷ xs
unfolding set_address
set_address-here n a x xs e = rw (e, set_address) refl

pub set_address-there :
    (n : ℕ) (a : Text) (x : LinkNode) (xs : List LinkNode)
    → (x.id == n) ≡ false
    → set_address n a (x ∷ xs) ≡ x ∷ set_address n a xs
unfolding set_address
set_address-there n a x xs e = rw (e, set_address) refl

pub find_node-here :
    (n : ℕ) (x found : LinkNode) (xs : List LinkNode)
    → (x.id == n) ≡ true
    → find_node n (x ∷ xs) ≡ some found
    → x ≡ found
unfolding find_node
find_node-here n x found xs e h = some_inj.0 (rw (e, find_node) at h)

pub find_node-there :
    (n : ℕ) (x found : LinkNode) (xs : List LinkNode)
    → (x.id == n) ≡ false
    → find_node n (x ∷ xs) ≡ some found
    → find_node n xs ≡ some found
unfolding find_node
find_node-there n x found xs e h = rw (e, find_node) at h

abbrev pub readdress : Text → LinkNode → LinkNode
readdress a x = record x { address = a }

-- Members after the address of a node is set.
pub In-set_address :
    (n : ℕ) (a : Text) (nodes : List LinkNode) (found y : LinkNode)
    → find_node n nodes ≡ some found
    → In y (set_address n a nodes)
    → In y nodes ⊎ (y ≡ readdress a found)
unfolding find_node set_address
In-set_address n a [] found y h t = absurd t
In-set_address n a (x ∷ xs) found y h t = elim (Bool-cases (x.id == n)) [
  | inl e ↦ elim (subst (In y) (set_address-here n a x xs e) t) [
    | inl y_is ↦ inr (y_is ∙ ap (readdress a) (find_node-here n x found xs e h))
    | inr t' ↦ inl (inr t')
  ]
  | inr e ↦ elim (subst (In y) (set_address-there n a x xs e) t) [
    | inl y_is ↦ inl (inl y_is)
    | inr t' ↦ elim (In-set_address n a xs found y (find_node-there n x found xs e h) t') [
      | inl u ↦ inl (inr u)
      | inr y_is ↦ inr y_is
    ]
  ]
]

pub set_address-In :
    (n : ℕ) (a : Text) (nodes : List LinkNode) (y : LinkNode)
    → y.id ≢ n
    → In y nodes
    → In y (set_address n a nodes)
unfolding set_address
set_address-In n a [] y ne t = absurd t
set_address-In n a (x ∷ xs) y ne t = elim (Bool-cases (x.id == n)) [
  | inl e ↦ subst (In y) (sym (set_address-here n a x xs e)) (elim t [
    | inl y_is ↦ absurd (ne (ap (λ z. z.id) y_is ∙ (==_iff x.id n).0 e))
    | inr t' ↦ inr t'
  ])
  | inr e ↦
      subst (In y) (sym (set_address-there n a x xs e))
        (elim t [ inl y_is ↦ inl y_is | inr t' ↦ inr (set_address-In n a xs y ne t') ])
]

pub set_address-found :
    (n : ℕ) (a : Text) (nodes : List LinkNode) (found : LinkNode)
    → find_node n nodes ≡ some found
    → In (readdress a found) (set_address n a nodes) × In found nodes × (found.id ≡ n)
unfolding find_node set_address
set_address-found n a [] found h = cc
set_address-found n a (x ∷ xs) found h = elim (Bool-cases (x.id == n)) [
  | inl e ↦
      let x_is = find_node-here n x found xs e h in
      (
        subst (In (readdress a found)) (sym (set_address-here n a x xs e))
            (inl (ap (readdress a) (sym x_is))),
        inl (sym x_is),
        ap (λ z. z.id) (sym x_is) ∙ (==_iff x.id n).0 e,
      )
  | inr e ↦
      let (t, t', is_n) = set_address-found n a xs found (find_node-there n x found xs e h) in
      (subst (In (readdress a found)) (sym (set_address-there n a x xs e)) (inr t), inr t', is_n)
]
