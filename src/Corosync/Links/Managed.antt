-- ===== src/Corosync/Links/Managed.antt =====
-- `update_node_addr`, `add_link` and `update_link` of crmsh/corosync.py keep the addresses unique.
use crmsh.Prelude.{
  ℕ, zero, suc, ◌+◌, ◌<◌, ◌≡◌, sym, ap, ◌∙◌, subst, Option, none, some, List, [], ◌∷◌, leb, leb→lt,
  Text, arith, Bool-cases, Option-cases, inl, inr, In,
}
use mathlib.Core.Option.{some_inj}
use crmsh.Prelude.Results.{Result, ok, err, >>=-eq-ok, ok_inj}
use crmsh.Corosync.Links.State.{
  Node, Interface, Config, LinkNode, Link, LinkError, assertion, key_error, index_error, no_link,
  too_many, stop_iteration, find_id,
}
use crmsh.Corosync.Links.Reading.{limit, or_raise, links, option_names, load_options}
use crmsh.Corosync.Links.Addresses.{
  nth, link_at, nodes_of, existing_addresses, claim_addresses, upsert_node_addr, update_node_addr,
}
use crmsh.Corosync.Links.Settings.{put_interfaces, check_options, update_link}
use crmsh.Corosync.Links.Editing.{
  unspecified, raise_missing, without_addresses, next_free, first_link, add_addresses,
}
use crmsh.Corosync.Links.Members.{IsMapping, or_raise-ok}
use crmsh.Corosync.Links.Found.{Reads, entry_of}
use crmsh.Corosync.Links.LinkList.{LinksOf, links-LinksOf, nth-LinkOf}
use crmsh.Corosync.Links.Unique.{IsUnique, HasUnique, IsUnique-SameLinks, addr-canonical}
use crmsh.Corosync.Links.Upserted.{upsert_node_addr-HasUnique}

-- The link that an operation is for was read.
link_at-eq-ok :
    {Number : Type 0} (i : ℕ) (ls : List (Option (Link Number))) (l : Link Number)
    → link_at i ls ≡ ok l
    → (i < limit) × (nth i ls ≡ some (some l))
unfolding link_at
link_at-eq-ok {Number = Number} i ls l h = elim (Bool-cases (leb limit i)) [
  | inl e ↦ cc (rw (e, link_at) at h)
  | inr e ↦ (leb→lt limit i e, there (nth i ls) (rw (e, link_at) at h))
]
  where
    there :
        (o : Option (Option (Link Number)))
        → (elim o as (λ x. Result LinkError (Link Number)) [
          | none ↦ err index_error
          | some none ↦ err no_link
          | some (some m) ↦ ok m
        ])
          ≡ ok l
        → o ≡ some (some l)
    there none h' = cc
    there (some none) h' = cc
    there (some (some m)) h' = ap (λ x. some (some x)) (ok_inj m l h')

pub nodes_of-some :
    (config : Config) (nodelist : List Node)
    → nodes_of config ≡ ok nodelist
    → config.nodelist ≡ some nodelist
nodes_of-some config nodelist h = or_raise-ok key_error config.nodelist nodelist h

-- Addresses are only written where the configuration has nodes.
upserted-nodelist :
    {Number : Type 0} (ip : Text → Option ℕ) (config config' : Config)
    (ls : List (Option (Link Number))) (i : ℕ) (nodes : List LinkNode) (given : List (ℕ × Text))
    → upsert_node_addr ip config ls i nodes given ≡ ok config'
    → (nodelist : List Node) × (config.nodelist ≡ some nodelist)
unfolding upsert_node_addr
upserted-nodelist ip config config' ls i nodes given h =
    let (known, h1, k1) = >>=-eq-ok (existing_addresses ip ls []) _ config' h in
    let (nodes', h2, k2) = >>=-eq-ok (claim_addresses ip given nodes known) _ config' k1 in
    let (nl, h3, k3) = >>=-eq-ok (nodes_of config) _ config' k2 in (nl, nodes_of-some config nl h3)

module _ {Number : Type 0} (int : Text → Option Number) (ip : Text → Option ℕ)
    (no_address : ip [] ≡ none) where
  pub IsUnique-list :
      (config : Config) (nodelist : List Node)
      → config.nodelist ≡ some nodelist
      → HasUnique ip config
      → IsUnique ip nodelist
  IsUnique-list config nodelist e u = rw e at u

  pub update_node_addr-HasUnique :
      (i : ℕ) (given : List (ℕ × Text)) (config config' : Config)
      → HasUnique ip config
      → IsMapping given
      → update_node_addr int ip i given config ≡ ok config'
      → HasUnique ip config'
  unfolding update_node_addr
  update_node_addr-HasUnique i given config config' u m h =
      let (ls, h1, k1) = >>=-eq-ok (links int config) _ config' h in
      let (l, h2, k2) = >>=-eq-ok (link_at i ls) _ config' k1 in
      let (nodelist, is_list) = upserted-nodelist ip config config' ls i l.nodes given k2 in
      let unique = IsUnique-list config nodelist is_list u in
      let is_links =
        links-LinksOf int config nodelist ls is_list
          (λ x y. IsUnique-SameLinks ip nodelist x y unique) h1 in
      let (lt, is_l) = link_at-eq-ok i ls l h2 in
      let here : 0 + i ≡ i = omega arith in
      let reads : Reads i l.nodes nodelist =
        subst (λ j. Reads j l.nodes nodelist) here
          (nth-LinkOf nodelist limit 0 i ls (some l) is_links is_l) in
      upsert_node_addr-HasUnique ip no_address nodelist ls i l.nodes given unique is_links m config
        config' is_list k2
        (record {
          from = λ x c t e.
              let (z, t', same_id, at) = reads.from x t in
              (z, t', same_id, addr-canonical ip i c z x.address lt at e);
          into = λ z a t at e. reads.into z a t at;
          complete = λ z t. inl (reads.full z t);
        })

  -- A new link: no node has an address on it yet, and all nodes are given one.
  next_free-absent :
      (nodelist : List Node) (count k i : ℕ) (ls : List (Option (Link Number)))
      → LinksOf nodelist count k ls
      → next_free k ls ≡ some i
      → (z : Node) → In z nodelist
      → z.addr i ≡ none
  unfolding next_free
  next_free-absent nodelist count k i [] o h z t = cc
  next_free-absent nodelist zero k i (l ∷ ls) o h z t = absurd o
  next_free-absent nodelist (suc count) k i (none ∷ ls) o h z t =
      ap z.addr (sym (some_inj.0 h)) ∙ o.0 z t
  next_free-absent nodelist (suc count) k i (some l ∷ ls) o h z t =
      next_free-absent nodelist count (suc k) i ls o.1 h z t

  first_link-Reads :
      (nodelist : List Node) (count k : ℕ) (ls : List (Option (Link Number))) (l : Link Number)
      → LinksOf nodelist count k ls
      → first_link ls ≡ some l
      → (j : ℕ) × Reads j l.nodes nodelist
  unfolding first_link
  first_link-Reads nodelist count k [] l o h = cc
  first_link-Reads nodelist zero k (x ∷ ls) l o h = absurd o
  first_link-Reads nodelist (suc count) k (none ∷ ls) l o h =
      first_link-Reads nodelist count (suc k) ls l o.1 h
  first_link-Reads nodelist (suc count) k (some x ∷ ls) l o h =
      (k, subst (λ y. Reads k y.nodes nodelist) (some_inj.0 h) o.0)

  all_specified :
      (nodes : List LinkNode) (given : List (ℕ × Text)) (x : LinkNode)
      → raise_missing (unspecified nodes given) ≡ ok tt
      → In x nodes
      → (a : Text) × (find_id x.id given ≡ some a)
  unfolding unspecified
  all_specified [] given x h t = absurd t
  all_specified (y ∷ ys) given x h t = elim (Option-cases (find_id y.id given)) [
    | inl e ↦ cc (rw (e, unspecified) at h)
    | inr (a, e) ↦ elim t [
      | inl x_is ↦ (a, ap (λ z. find_id z.id given) x_is ∙ e)
      | inr t' ↦ all_specified ys given x (rw (e, unspecified) at h) t'
    ]
  ]

  no_addresses :
      (nodes : List LinkNode) (x : LinkNode) → In x (without_addresses nodes) → x.address ≡ []
  unfolding without_addresses
  no_addresses [] x t = absurd t
  no_addresses (y ∷ ys) x (inl e) = ap (λ z. z.address) e
  no_addresses (y ∷ ys) x (inr t) = no_addresses ys x t

  pub add_addresses-HasUnique :
      (i : ℕ) (given : List (ℕ × Text)) (config config' : Config)
      → HasUnique ip config
      → IsMapping given
      → add_addresses int ip given config ≡ ok (i, config')
      → HasUnique ip config'
  unfolding add_addresses
  add_addresses-HasUnique i given config config' u m h =
      let (ls, h1, k1) = >>=-eq-ok (links int config) _ (i, config') h in
      let (j, h2, k2) = >>=-eq-ok (or_raise too_many (next_free 0 ls)) _ (i, config') k1 in
      let (l, h3, k3) = >>=-eq-ok (or_raise stop_iteration (first_link ls)) _ (i, config') k2 in
      let (v, h4, k4) = >>=-eq-ok (raise_missing (unspecified l.nodes given)) _ (i, config') k3 in
      let (c2, h5, k5) =
        >>=-eq-ok (upsert_node_addr ip config ls j (without_addresses l.nodes) given) _ (i, config')
          k4 in
      let (nodelist, is_list) =
        upserted-nodelist ip config c2 ls j (without_addresses l.nodes) given h5 in
      let unique = IsUnique-list config nodelist is_list u in
      let is_links =
        links-LinksOf int config nodelist ls is_list
          (λ x y. IsUnique-SameLinks ip nodelist x y unique) h1 in
      let is_free =
        next_free-absent nodelist limit 0 j ls is_links
          (or_raise-ok too_many (next_free 0 ls) j h2) in
      let (k, reads) =
        first_link-Reads nodelist limit 0 ls l is_links
          (or_raise-ok stop_iteration (first_link ls) l h3) in
      subst (HasUnique ip) (ap (λ p. p.1) (ok_inj (j, c2) (i, config') k5)) (
        upsert_node_addr-HasUnique ip no_address nodelist ls j (without_addresses l.nodes) given
          unique is_links m config c2 is_list h5
          (record {
            from =
                λ x c t e. none_some (sym no_address ∙ ap ip (sym (no_addresses l.nodes x t)) ∙ e);
            into = λ z a t at e. none_some (sym (is_free z t) ∙ at);
            complete = λ z t.
                let (a, at) = reads.full z t in
                inr (all_specified l.nodes given (entry_of z a) h4 (reads.into z a t at));
          }))
    where
      none_some : {A B : Type 0} {x : A} → none ≡ some x → B
      none_some h' = cc

  -- The options of a link leave the nodes alone.
  put_interfaces-HasUnique :
      (xs : List Interface) (config : Config)
      → HasUnique ip config
      → HasUnique ip (put_interfaces xs config)
  unfolding put_interfaces
  put_interfaces-HasUnique [] config u = u
  put_interfaces-HasUnique (x ∷ xs) config u = u

  pub update_link-HasUnique :
      (str : Number → Text) (i : ℕ) (options : List (Text × Option Text)) (config config' : Config)
      → HasUnique ip config
      → update_link int str i options config ≡ ok config'
      → HasUnique ip config'
  unfolding update_link
  update_link-HasUnique str i options config config' u h =
      let (ls, h1, k1) = >>=-eq-ok (links int config) _ config' h in
      let (l, h2, k2) = >>=-eq-ok (link_at i ls) _ config' k1 in
      let (v, h3, k3) = >>=-eq-ok (check_options options) _ config' k2 in
      let (o, h4, k4) = >>=-eq-ok (load_options int options option_names l.options) _ config' k3 in
      let (t, h5, k5) = >>=-eq-ok (or_raise assertion config.totem) _ config' k4 in
      subst (HasUnique ip) (ok_inj _ config' k5) (put_interfaces-HasUnique _ config u)
