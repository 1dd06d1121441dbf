-- ===== src/Corosync/Links/KnownAddresses.antt =====
-- `existing_addr_node_map` of crmsh/corosync.py has every address that the links have.
use crmsh.Prelude.{
  ℕ, zero, suc, ◌+◌, ◌<◌, ◌≡◌, refl, sym, ap, ◌∙◌, subst, true, Option, none, some, List, [], ◌∷◌,
  Text, is_empty, arith, Bool-cases, ◌⊎◌, inl, inr, In,
}
use mathlib.Core.Option.{some_inj}
use crmsh.Prelude.Results.{ok, >>=-eq-ok, ok_inj}
use crmsh.Corosync.Links.State.{Node, LinkNode, Link, bad_address}
use crmsh.Corosync.Links.Reading.{or_raise}
use crmsh.Corosync.Links.Addresses.{node_addresses, existing_addresses}
use crmsh.Corosync.Links.Members.{Known, or_raise-ok, find_id-cons-Known, find_id-head-Known}
use crmsh.Corosync.Links.Found.{entry_of}
use crmsh.Corosync.Links.LinkList.{LinksOf}

is_empty-eq : (t : Text) → is_empty t ≡ true → t ≡ []
is_empty-eq [] h = refl
is_empty-eq (c ∷ t) h = cc

module _ (ip : Text → Option ℕ) (no_address : ip [] ≡ none) where
  -- A node either has no address or adds its own.
  node_addresses-cons :
      (x : LinkNode) (xs : List LinkNode) (known known' : List (ℕ × ℕ))
      → node_addresses ip (x ∷ xs) known ≡ ok known'
      → ((x.address ≡ []) × (node_addresses ip xs known ≡ ok known'))
        ⊎ ((c : ℕ) × (ip x.address ≡ some c)
            × (node_addresses ip xs ((c, x.id) ∷ known) ≡ ok known'))
  unfolding node_addresses
  node_addresses-cons x xs known known' h = elim (Bool-cases (is_empty x.address)) [
    | inl e ↦ inl (is_empty-eq x.address e, rw (e, node_addresses) at h)
    | inr e ↦
        let (c, h1, k1) =
          >>=-eq-ok (or_raise bad_address (ip x.address)) _ known' (rw (e, node_addresses) at h) in
        inr (c, or_raise-ok bad_address (ip x.address) c h1, k1)
  ]

  node_addresses-kept :
      (xs : List LinkNode) (known known' : List (ℕ × ℕ)) (c : ℕ)
      → node_addresses ip xs known ≡ ok known'
      → Known c known
      → Known c known'
  unfolding node_addresses
  node_addresses-kept [] known known' c h k = subst (Known c) (ok_inj known known' h) k
  node_addresses-kept (x ∷ xs) known known' c h k = elim (node_addresses-cons x xs known known' h) [
    | inl p ↦ node_addresses-kept xs known known' c p.1 k
    | inr p ↦
        let (d, e, h') = p in
        node_addresses-kept xs ((d, x.id) ∷ known) known' c h' (find_id-cons-Known c d x.id known k)
  ]

  node_addresses-Known :
      (xs : List LinkNode) (known known' : List (ℕ × ℕ)) (x : LinkNode) (c : ℕ)
      → node_addresses ip xs known ≡ ok known'
      → In x xs
      → ip x.address ≡ some c
      → Known c known'
  unfolding node_addresses
  node_addresses-Known [] known known' x c h t e = absurd t
  node_addresses-Known (y ∷ ys) known known' x c h t e =
      elim (node_addresses-cons y ys known known' h) [
        | inl p ↦ elim t [
          | inl x_is ↦
              absurd (
                none_some
                  (sym no_address ∙ ap ip (sym p.0) ∙ ap (λ z. ip z.address) (sym x_is) ∙ e))
          | inr u ↦ node_addresses-Known ys known known' x c p.1 u e
        ]
        | inr p ↦
            let (d, e', h') = p in
            elim t [
              | inl x_is ↦ node_addresses-kept ys ((d, y.id) ∷ known) known' c h' (
                  subst (λ k. Known c ((k, y.id) ∷ known))
                    (some_inj.0 (sym e ∙ ap (λ z. ip z.address) x_is ∙ e'))
                    (find_id-head-Known c y.id known))
              | inr u ↦ node_addresses-Known ys ((d, y.id) ∷ known) known' x c h' u e
            ]
      ]
    where
      none_some : {c : ℕ} → none ≡ some c → ⊥
      none_some h = cc

  module _ {Number : Type 0} (nodelist : List Node) where
    existing_addresses-kept :
        (ls : List (Option (Link Number))) (known known' : List (ℕ × ℕ)) (c : ℕ)
        → existing_addresses ip ls known ≡ ok known'
        → Known c known
        → Known c known'
    unfolding existing_addresses
    existing_addresses-kept [] known known' c h k = subst (Known c) (ok_inj known known' h) k
    existing_addresses-kept (none ∷ ls) known known' c h k =
        existing_addresses-kept ls known known' c h k
    existing_addresses-kept (some l ∷ ls) known known' c h k =
        let (known2, h1, k1) = >>=-eq-ok (node_addresses ip l.nodes known) _ known' h in
        existing_addresses-kept ls known2 known' c k1
          (node_addresses-kept l.nodes known known2 c h1 k)

    -- An address of a node on one of the links.
    pub existing_addresses-Known :
        (count i k : ℕ) (ls : List (Option (Link Number))) (known known' : List (ℕ × ℕ)) (z : Node)
        (b : Text) (c : ℕ)
        → LinksOf nodelist count i ls
        → existing_addresses ip ls known ≡ ok known'
        → In z nodelist
        → k < count
        → z.addr (i + k) ≡ some b
        → ip b ≡ some c
        → Known c known'
    unfolding existing_addresses
    existing_addresses-Known zero i k ls known known' z b c o h t lt e e' = absurd (omega arith)
    existing_addresses-Known (suc count) i k [] known known' z b c o h t lt e e' = absurd o
    existing_addresses-Known (suc count) i zero (none ∷ ls) known known' z b c o h t lt e e' =
        absurd (none_some (sym (o.0 z t) ∙ ap z.addr at ∙ e))
      where
        at : i ≡ i + 0
        at = omega arith

        none_some : none ≡ some b → ⊥
        none_some h = cc
    existing_addresses-Known (suc count) i (suc k) (none ∷ ls) known known' z b c o h t lt e e' =
        existing_addresses-Known count (suc i) k ls known known' z b c o.1 h t (omega arith)
          (ap z.addr at ∙ e) e'
      where
        at : suc i + k ≡ i + suc k
        at = omega arith
    existing_addresses-Known (suc count) i zero (some l ∷ ls) known known' z b c o h t lt e e' =
        let (known2, h1, k1) = >>=-eq-ok (node_addresses ip l.nodes known) _ known' h in
        existing_addresses-kept ls known2 known' c k1 (
          node_addresses-Known l.nodes known known2 (entry_of z b) c h1
            (o.0.into z b t (ap z.addr at ∙ e)) e')
      where
        at : i ≡ i + 0
        at = omega arith
    existing_addresses-Known (suc count) i (suc k) (some l ∷ ls) known known' z b c o h t lt e e' =
        let (known2, h1, k1) = >>=-eq-ok (node_addresses ip l.nodes known) _ known' h in
        existing_addresses-Known count (suc i) k ls known2 known' z b c o.1 k1 t (omega arith)
          (ap z.addr at ∙ e) e'
      where
        at : suc i + k ≡ i + suc k
        at = omega arith
