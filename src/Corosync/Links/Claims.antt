-- ===== src/Corosync/Links/Claims.antt =====
-- The loop of `__upsert_node_addr_impl` of crmsh/corosync.py over the new addresses: what it leaves,
-- and that no address is claimed twice.
use crmsh.Prelude.{
  ℕ, ◌≡◌, refl, sym, ap, ◌∙◌, subst, Bool, true, false, not, Option, none, some, List, [], ◌∷◌,
  ◌==◌, ==_iff, Text, Bool-cases, Option-cases, ◌⊎◌, inl, inr, In,
}
use mathlib.Core.Option.{some_inj}
use crmsh.Prelude.Results.{ok, >>=-eq-ok, ok_inj}
use crmsh.Corosync.Links.State.{LinkNode, unknown_node, bad_address, find_id}
use crmsh.Corosync.Links.Reading.{or_raise}
use crmsh.Corosync.Links.Addresses.{
  find_node, set_address, is_change, raise_if_known, claim_addresses,
}
use crmsh.Corosync.Links.Members.{
  IsMapping, Known, find_id-cons-Known, find_id-head-Known, or_raise-ok, readdress, In-set_address,
  set_address-In, set_address-found,
}

module _ (ip : Text → Option ℕ) (no_address : ip [] ≡ none) where
  -- A change to another address is refused where that is known.
  known_same :
      (a : Text) (n m : ℕ) (changes : Bool)
      → raise_if_known changes a n (some m) ≡ ok tt
      → changes ≡ false
  unfolding raise_if_known
  known_same a n m true h = cc
  known_same a n m false h = refl

  unchanged : (old : Text) (c : ℕ) → is_change ip old c ≡ ok false → ip old ≡ some c
  unfolding is_change
  unchanged [] c h = cc
  unchanged (x ∷ xs) c h = elim (Option-cases (ip (x ∷ xs))) [
    | inl e ↦ cc (rw (e, is_change) at h)
    | inr (d, e) ↦
        e ∙ ap some ((==_iff d c).0 (not_false (d == c) (ok_inj _ _ (rw (e, is_change) at h))))
  ]
    where
      not_false : (b : Bool) → not b ≡ false → b ≡ true
      not_false true h = refl
      not_false false h = cc

  change-free :
      (old a : Text) (n c : ℕ) (changes : Bool) (known : List (ℕ × ℕ))
      → is_change ip old c ≡ ok changes
      → raise_if_known changes a n (find_id c known) ≡ ok tt
      → (ip old ≡ some c) ⊎ (find_id c known ≡ none)
  change-free old a n c changes known h h' = elim (Option-cases (find_id c known)) [
    | inl e ↦ inr e
    | inr (m, e) ↦ inl (
        unchanged old c (
          subst (λ b. is_change ip old c ≡ ok b)
            (known_same a n m changes (subst (λ o. raise_if_known changes a n o ≡ ok tt) e h')) h))
  ]

  -- What the loop keeps: every address of the link and of the others (`Other`) is known, and no two
  -- nodes have one.
  pub record Safe (Other : ℕ → Type 0) (nodes : List LinkNode) (known : List (ℕ × ℕ)) : Type 0 where
    pub own_known : (x : LinkNode) (c : ℕ) → In x nodes → ip x.address ≡ some c → Known c known
    pub other_known : (c : ℕ) → Other c → Known c known
    pub distinct :
        (x y : LinkNode) (c : ℕ)
        → In x nodes
        → In y nodes
        → ip x.address ≡ some c
        → ip y.address ≡ some c
        → x.id ≡ y.id
    pub apart : (x : LinkNode) (c : ℕ) → In x nodes → ip x.address ≡ some c → Other c → ⊥

  not-Known : (c : ℕ) (known : List (ℕ × ℕ)) → Known c known → find_id c known ≡ none → ⊥
  not-Known c known (m, h) e = cc

  -- One round of the loop.
  module _ (Other : ℕ → Type 0) (nodes : List LinkNode) (known : List (ℕ × ℕ)) (n c : ℕ) (a : Text)
      (found : LinkNode) (is_found : find_node n nodes ≡ some found) (is_c : ip a ≡ some c)
      (free : (ip found.address ≡ some c) ⊎ (find_id c known ≡ none))
      (safe : Safe Other nodes known) where
    old_owner : (x : LinkNode) → In x nodes → ip x.address ≡ some c → x.id ≡ found.id
    old_owner x t e = elim free [
      | inl same_c ↦
          safe.distinct x found c t (set_address-found n a nodes found is_found).1 e same_c
      | inr unknown ↦ absurd (not-Known c known (safe.own_known x c t e) unknown)
    ]

    new_address : (y : LinkNode) (c' : ℕ) → y ≡ readdress a found → ip y.address ≡ some c' → c' ≡ c
    new_address y c' y_is e = some_inj.0 (sym e ∙ ap (λ z. ip z.address) y_is ∙ is_c)

    Known-after :
        (x : LinkNode) (c' : ℕ)
        → In x (set_address n a nodes)
        → ip x.address ≡ some c'
        → Known c' ((c, found.id) ∷ known)
    Known-after x c' t e = elim (In-set_address n a nodes found x is_found t) [
      | inl u ↦ find_id-cons-Known c' c found.id known (safe.own_known x c' u e)
      | inr x_is ↦
          subst (λ d. Known d ((c, found.id) ∷ known)) (sym (new_address x c' x_is e))
            (find_id-head-Known c found.id known)
    ]

    distinct_after :
        (x y : LinkNode) (c' : ℕ)
        → In x (set_address n a nodes)
        → In y (set_address n a nodes)
        → ip x.address ≡ some c'
        → ip y.address ≡ some c'
        → x.id ≡ y.id
    distinct_after x y c' t u e e' = elim (In-set_address n a nodes found x is_found t) [
      | inl t' ↦ elim (In-set_address n a nodes found y is_found u) [
        | inl u' ↦ safe.distinct x y c' t' u' e e'
        | inr y_is ↦
            old_owner x t' (e ∙ ap some (new_address y c' y_is e')) ∙ sym (ap (λ z. z.id) y_is)
      ]
      | inr x_is ↦ elim (In-set_address n a nodes found y is_found u) [
        | inl u' ↦
            ap (λ z. z.id) x_is ∙ sym (old_owner y u' (e' ∙ ap some (new_address x c' x_is e)))
        | inr y_is ↦ ap (λ z. z.id) x_is ∙ sym (ap (λ z. z.id) y_is)
      ]
    ]

    apart_after :
        (x : LinkNode) (c' : ℕ)
        → In x (set_address n a nodes)
        → ip x.address ≡ some c'
        → Other c'
        → ⊥
    apart_after x c' t e o = elim (In-set_address n a nodes found x is_found t) [
      | inl t' ↦ safe.apart x c' t' e o
      | inr x_is ↦
          let o_c : Other c = subst Other (new_address x c' x_is e) o in
          elim free [
            | inl same_c ↦
                safe.apart found c (set_address-found n a nodes found is_found).1 same_c o_c
            | inr unknown ↦ not-Known c known (safe.other_known c o_c) unknown
          ]
    ]

    set_address-Safe : Safe Other (set_address n a nodes) ((c, found.id) ∷ known)
    set_address-Safe = record {
      own_known = Known-after;
      other_known = λ c' o. find_id-cons-Known c' c found.id known (safe.other_known c' o);
      distinct = distinct_after;
      apart = apart_after;
    }

  -- What a round of the loop has found where the loop returns.
  record Round (n : ℕ) (a : Text) (given : List (ℕ × Text)) (nodes : List LinkNode)
      (known : List (ℕ × ℕ)) (nodes' : List LinkNode) : Type 0 where
    at : LinkNode
    address : ℕ
    is_at : find_node n nodes ≡ some at
    is_address : ip a ≡ some address
    is_free : (ip at.address ≡ some address) ⊎ (find_id address known ≡ none)
    goes_on :
        claim_addresses ip given (set_address n a nodes) ((address, at.id) ∷ known) ≡ ok nodes'

  claim_addresses-Round :
      (n : ℕ) (a : Text) (given : List (ℕ × Text)) (nodes nodes' : List LinkNode)
      (known : List (ℕ × ℕ))
      → claim_addresses ip ((n, a) ∷ given) nodes known ≡ ok nodes'
      → Round n a given nodes known nodes'
  unfolding claim_addresses
  claim_addresses-Round n a given nodes nodes' known h =
      let (at, h1, k1) = >>=-eq-ok (or_raise (unknown_node n) (find_node n nodes)) _ nodes' h in
      let (c, h2, k2) = >>=-eq-ok (or_raise bad_address (ip a)) _ nodes' k1 in
      let (changes, h3, k3) = >>=-eq-ok (is_change ip at.address c) _ nodes' k2 in
      let (u, h4, k4) = >>=-eq-ok (raise_if_known changes a n (find_id c known)) _ nodes' k3 in
      record {
        at = at;
        address = c;
        is_at = or_raise-ok (unknown_node n) (find_node n nodes) at h1;
        is_address = or_raise-ok bad_address (ip a) c h2;
        is_free = change-free at.address a n c changes known h3 h4;
        goes_on = k4;
      }

  pub claim_addresses-Safe :
      (Other : ℕ → Type 0) (given : List (ℕ × Text)) (nodes nodes' : List LinkNode)
      (known : List (ℕ × ℕ))
      → claim_addresses ip given nodes known ≡ ok nodes'
      → Safe Other nodes known
      → (known' : List (ℕ × ℕ)) × Safe Other nodes' known'
  unfolding claim_addresses
  claim_addresses-Safe Other [] nodes nodes' known h safe =
      (known, subst (λ ns. Safe Other ns known) (ok_inj nodes nodes' h) safe)
  claim_addresses-Safe Other ((n, a) ∷ given) nodes nodes' known h safe =
      let r = claim_addresses-Round n a given nodes nodes' known h in
      claim_addresses-Safe Other given (set_address n a nodes) nodes' ((r.address, r.at.id) ∷ known)
        r.goes_on
        (set_address-Safe Other nodes known n r.address a r.at r.is_at r.is_address r.is_free safe)

  -- A node that is given no address stays.
  pub claim_addresses-In :
      (given : List (ℕ × Text)) (nodes nodes' : List LinkNode) (known : List (ℕ × ℕ)) (x : LinkNode)
      → claim_addresses ip given nodes known ≡ ok nodes'
      → find_id x.id given ≡ none
      → In x nodes
      → In x nodes'
  unfolding claim_addresses find_id
  claim_addresses-In [] nodes nodes' known x h e t = subst (In x) (ok_inj nodes nodes' h) t
  claim_addresses-In ((n, a) ∷ given) nodes nodes' known x h e t =
      let r = claim_addresses-Round n a given nodes nodes' known h in
      elim (Bool-cases (n == x.id)) [
        | inl is_x ↦ cc (rw (is_x, find_id) at e)
        | inr not_x ↦
            claim_addresses-In given (set_address n a nodes) nodes' ((r.address, r.at.id) ∷ known) x
              r.goes_on (rw (not_x, find_id) at e)
              (set_address-In n a nodes x
                (λ same_id. true≢false' (sym ((==_iff n x.id).1 (sym same_id)) ∙ not_x)) t)
      ]
    where
      true≢false' : true ≡ false → ⊥
      true≢false' h = cc

  -- A node that is given an address has it in the end, where no node is given two.
  pub claim_addresses-given :
      (given : List (ℕ × Text)) (nodes nodes' : List LinkNode) (known : List (ℕ × ℕ)) (k : ℕ)
      (b : Text)
      → claim_addresses ip given nodes known ≡ ok nodes'
      → IsMapping given
      → find_id k given ≡ some b
      → (x : LinkNode) × In x nodes' × (x.id ≡ k) × (x.address ≡ b)
  unfolding claim_addresses find_id
  claim_addresses-given [] nodes nodes' known k b h m e = cc
  claim_addresses-given ((n, a) ∷ given) nodes nodes' known k b h m e =
      let r = claim_addresses-Round n a given nodes nodes' known h in
      let (t, u, is_n) = set_address-found n a nodes r.at r.is_at in
      elim (Bool-cases (n == k)) [
        | inl is_k ↦ (
          readdress a r.at,
          claim_addresses-In given (set_address n a nodes) nodes' ((r.address, r.at.id) ∷ known)
              (readdress a r.at) r.goes_on (subst (λ j. find_id j given ≡ none) (sym is_n) m.0) t,
          is_n ∙ (==_iff n k).0 is_k,
          some_inj.0 (rw (is_k, find_id) at e),
        )
        | inr not_k ↦
            claim_addresses-given given (set_address n a nodes) nodes'
              ((r.address, r.at.id) ∷ known) k b r.goes_on m.1 (rw (not_k, find_id) at e)
      ]
