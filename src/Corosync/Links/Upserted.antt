-- ===== src/Corosync/Links/Upserted.antt =====
-- `__upsert_node_addr_impl` of crmsh/corosync.py keeps the addresses unique.
use crmsh.Prelude.{
  ℕ, ◌+◌, ◌≡◌, ◌≢◌, refl, sym, ap, ◌∙◌, subst, true, false, Option, none, some, List, [], ◌==◌,
  ==_iff, Text, arith, Bool-cases, Option-cases, ◌⊎◌, inl, inr, In,
}
use mathlib.Core.Option.{some_inj}
use crmsh.Prelude.Results.{ok, >>=-eq-ok, ok_inj}
use crmsh.Corosync.Links.State.{Node, Config, LinkNode, Link, key_error, find_id}
use crmsh.Corosync.Links.Reading.{limit}
use crmsh.Corosync.Links.Addresses.{
  write_addr, map_nodes, nodes_of, existing_addresses, claim_addresses, upsert_node_addr,
}
use crmsh.Corosync.Links.Found.{SameLinks, is_there, entry_of}
use crmsh.Corosync.Links.LinkList.{LinksOf}
use crmsh.Corosync.Links.KnownAddresses.{existing_addresses-Known}
use crmsh.Corosync.Links.Members.{IsMapping, Known, or_raise-ok}
use crmsh.Corosync.Links.Claims.{
  Safe, claim_addresses-Safe, claim_addresses-In, claim_addresses-given,
}
use crmsh.Corosync.Links.Unique.{
  canonical, IsUnique, HasUnique, IsUnique-apart, IsUnique-SameLinks, apart-IsUnique,
  canonical-addr, addr-canonical,
}
use crmsh.Corosync.Links.WrittenNodes.{
  In-map_nodes, write_addr-kept, nodeid-write_addr, addr-write_addr-other, addr-write_addr-given,
}

module _ (ip : Text → Option ℕ) (no_address : ip [] ≡ none) {Number : Type 0} (nodelist : List Node)
    (ls : List (Option (Link Number))) (i : ℕ) (nodes : List LinkNode) (given : List (ℕ × Text))
    (unique : IsUnique ip nodelist) (is_links : LinksOf nodelist limit 0 ls)
    (is_mapping : IsMapping given) where
  -- What the nodes of the link are, before its addresses are claimed.
  pub record Before : Type 0 where
    pub from :
        (x : LinkNode) (c : ℕ)
        → In x nodes
        → ip x.address ≡ some c
        → (z : Node) × In z nodelist × (z.nodeid ≡ x.id) × (canonical ip i z ≡ some c)
    pub into :
        (z : Node) (a : Text)
        → In z nodelist
        → z.addr i ≡ some a
        → find_id z.nodeid given ≡ none
        → In (entry_of z a) nodes
    pub complete :
        (z : Node)
        → In z nodelist
        → ((a : Text) × (z.addr i ≡ some a)) ⊎ ((a : Text) × (find_id z.nodeid given ≡ some a))

  -- An address of another link.
  abbrev Other : ℕ → Type 0
  Other c = (z : Node) × In z nodelist × ((j : ℕ) × (j ≢ i) × (canonical ip j z ≡ some c))

  Known-address :
      (known : List (ℕ × ℕ)) (z : Node) (j c : ℕ)
      → existing_addresses ip ls [] ≡ ok known
      → In z nodelist
      → canonical ip j z ≡ some c
      → Known c known
  Known-address known z j c h t e =
      let (b, lt, at, is_c) = canonical-addr ip j c z e in
      let here : 0 + j ≡ j = omega arith in
      existing_addresses-Known ip no_address nodelist limit 0 j ls [] known z b c is_links h t lt
        (ap z.addr here ∙ at) is_c

  start-Safe :
      (known : List (ℕ × ℕ))
      → existing_addresses ip ls [] ≡ ok known
      → Before
      → Safe ip no_address Other nodes known
  start-Safe known h before = record {
    own_known = λ x c t e.
        let (z, u, same_id, e') = before.from x c t e in Known-address known z i c h u e';
    other_known = λ c o. let (z, u, (j, ne, e)) = o in Known-address known z j c h u e;
    distinct = λ x y c t u e e'.
        let (z, t', same_id, f) = before.from x c t e in
        let (z', u', same_id', f') = before.from y c u e' in
        sym same_id ∙ (IsUnique-apart ip nodelist z z' i i c unique t' u' f f').0 ∙ same_id';
    apart = λ x c t e o.
        let (z, t', same_id, f) = before.from x c t e in
        let (z', u, (j, ne, f')) = o in
        ne (sym (IsUnique-apart ip nodelist z z' i j c unique t' u f f').1);
  }

  -- Where an address stands after the operation: on another link, or among the claimed nodes.
  after_write :
      (known : List (ℕ × ℕ)) (nodes' : List LinkNode) (z : Node) (j c : ℕ)
      → claim_addresses ip given nodes known ≡ ok nodes'
      → Before
      → In z nodelist
      → canonical ip j (write_addr i given z) ≡ some c
      → ((j ≢ i) × (canonical ip j z ≡ some c))
        ⊎ ((j ≡ i) × ((x : LinkNode) × In x nodes' × (x.id ≡ z.nodeid) × (ip x.address ≡ some c)))
  after_write known nodes' z j c h before t e =
      let (b, lt, at, is_c) = canonical-addr ip j c (write_addr i given z) e in
      elim (Bool-cases (j == i)) [
        | inr ne ↦ inl (
          λ same. true_false (sym ((==_iff j i).1 same) ∙ ne),
          addr-canonical ip j c z b lt (sym (addr-write_addr-other i j given z ne) ∙ at) is_c,
        )
        | inl is_i ↦
            let same : j ≡ i = (==_iff j i).0 is_i in
            let at_i : (write_addr i given z).addr i ≡ some b =
              ap (write_addr i given z).addr (sym same) ∙ at in
            inr (
              same,
              elim (Option-cases (find_id z.nodeid given)) [
                | inl e' ↦ (
                  entry_of z b,
                  claim_addresses-In ip no_address given nodes nodes' known (entry_of z b) h e' (
                      before.into z b t
                        (sym (ap (λ y. y.addr i) (write_addr-kept i given z e')) ∙ at_i) e'),
                  refl,
                  is_c,
                )
                | inr (a, e') ↦
                    let (x, u, same_id, is_a) =
                      claim_addresses-given ip no_address given nodes nodes' known z.nodeid a h
                        is_mapping e' in
                    let same_a : a ≡ b =
                      some_inj.0 (sym (addr-write_addr-given i given z a e') ∙ at_i) in
                    (x, u, same_id, ap ip (is_a ∙ same_a) ∙ is_c)
              ],
            )
      ]
    where
      true_false : true ≡ false → ⊥
      true_false h' = cc

  written-apart :
      (known : List (ℕ × ℕ)) (nodes' : List LinkNode) (x y : Node) (j k c : ℕ)
      → claim_addresses ip given nodes known ≡ ok nodes'
      → ((known' : List (ℕ × ℕ)) × Safe ip no_address Other nodes' known')
      → Before
      → In x nodelist
      → In y nodelist
      → canonical ip j (write_addr i given x) ≡ some c
      → canonical ip k (write_addr i given y) ≡ some c
      → (x.nodeid ≡ y.nodeid) × (j ≡ k)
  written-apart known nodes' x y j k c h (known', safe) before t u e e' =
      elim (after_write known nodes' x j c h before t e) [
        | inl p ↦ elim (after_write known nodes' y k c h before u e') [
          | inl q ↦ IsUnique-apart ip nodelist x y j k c unique t u p.1 q.1
          | inr q ↦
              let (is_i, (n, u', same_id, f)) = q in
              absurd (safe.apart n c u' f (x, t, (j, p.0, p.1)))
        ]
        | inr p ↦
            let (is_i, (n, t', same_id, f)) = p in
            elim (after_write known nodes' y k c h before u e') [
              | inl q ↦ absurd (safe.apart n c t' f (y, u, (k, q.0, q.1)))
              | inr q ↦
                  let (is_i', (n', u', same_id', f')) = q in
                  (sym same_id ∙ safe.distinct n n' c t' u' f f' ∙ same_id', is_i ∙ sym is_i')
            ]
      ]

  written_there :
      (z : Node) → Before → In z nodelist → is_there ((write_addr i given z).addr i) ≡ true
  written_there z before t = elim (Option-cases (find_id z.nodeid given)) [
    | inr (a, e) ↦ ap is_there (addr-write_addr-given i given z a e)
    | inl e ↦ elim (before.complete z t) [
      | inl p ↦ ap is_there (ap (λ y. y.addr i) (write_addr-kept i given z e) ∙ p.1)
      | inr p ↦ none_some (sym e ∙ p.1)
    ]
  ]
    where
      none_some : {a : Text} → none ≡ some a → is_there ((write_addr i given z).addr i) ≡ true
      none_some h = cc

  written-SameLinks :
      (x y : Node)
      → Before
      → In x nodelist
      → In y nodelist
      → SameLinks (write_addr i given x) (write_addr i given y)
  written-SameLinks x y before t u j = elim (Bool-cases (j == i)) [
    | inr ne ↦
        ap is_there (addr-write_addr-other i j given x ne)
        ∙ IsUnique-SameLinks ip nodelist x y unique t u j
        ∙ sym (ap is_there (addr-write_addr-other i j given y ne))
    | inl is_i ↦
        subst
          (λ k. is_there ((write_addr i given x).addr k) ≡ is_there ((write_addr i given y).addr k))
          (sym ((==_iff j i).0 is_i)) (written_there x before t ∙ sym (written_there y before u))
  ]

  pub written-IsUnique :
      (known : List (ℕ × ℕ)) (nodes' : List LinkNode)
      → existing_addresses ip ls [] ≡ ok known
      → claim_addresses ip given nodes known ≡ ok nodes'
      → Before
      → IsUnique ip (map_nodes (write_addr i given) nodelist)
  written-IsUnique known nodes' h h' before =
      apart-IsUnique ip (map_nodes (write_addr i given) nodelist)
        (λ v w t u.
          let (x, t', v_is) = In-map_nodes (write_addr i given) nodelist v t in
          let (y, u', w_is) = In-map_nodes (write_addr i given) nodelist w u in
          subst (SameLinks v) (sym w_is) (
            subst (λ v'. SameLinks v' (write_addr i given y)) (sym v_is)
              (written-SameLinks x y before t' u')))
        (λ v w j k c t u e e'.
          let (x, t', v_is) = In-map_nodes (write_addr i given) nodelist v t in
          let (y, u', w_is) = In-map_nodes (write_addr i given) nodelist w u in
          let (same_id, same_link) =
            written-apart known nodes' x y j k c h'
              (claim_addresses-Safe ip no_address Other given nodes nodes' known h'
                (start-Safe known h before))
              before t' u' (ap (canonical ip j) (sym v_is) ∙ e)
              (ap (canonical ip k) (sym w_is) ∙ e') in
          (
            ap (λ n. n.nodeid) v_is
                ∙ nodeid-write_addr i given x
                ∙ same_id
                ∙ sym (nodeid-write_addr i given y)
                ∙ sym (ap (λ n. n.nodeid) w_is),
            same_link,
          ))

  pub upsert_node_addr-HasUnique :
      (config config' : Config)
      → config.nodelist ≡ some nodelist
      → upsert_node_addr ip config ls i nodes given ≡ ok config'
      → Before
      → HasUnique ip config'
  unfolding upsert_node_addr
  upsert_node_addr-HasUnique config config' is_list h before =
      let (known, h1, k1) = >>=-eq-ok (existing_addresses ip ls []) _ config' h in
      let (nodes', h2, k2) = >>=-eq-ok (claim_addresses ip given nodes known) _ config' k1 in
      let (nl, h3, k3) = >>=-eq-ok (nodes_of config) _ config' k2 in
      let same_list : nl ≡ nodelist =
        some_inj.0 (sym (or_raise-ok key_error config.nodelist nl h3) ∙ is_list) in
      subst (HasUnique ip)
        (ok_inj (record config { nodelist = some (map_nodes (write_addr i given) nl) }) config' k3)
        (subst (λ n. IsUnique ip (map_nodes (write_addr i given) n)) (sym same_list)
          (written-IsUnique known nodes' h1 h2 before))
