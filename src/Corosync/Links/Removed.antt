-- ===== src/Corosync/Links/Removed.antt =====
-- `remove_link` of crmsh/corosync.py keeps the addresses unique.
use crmsh.Prelude.{
  ℕ, ◌≡◌, refl, sym, ap, ◌∙◌, subst, Option, none, some, List, [], ◌∷◌, ◌==◌, leb, Text, Bool-cases,
  inl, inr, In,
}
use crmsh.Prelude.Results.{Result, ok, ◌>>=◌, >>=-eq-ok, ok_inj}
use crmsh.Corosync.Links.State.{Node, Interface, Config, LinkError, assertion, last_link}
use crmsh.Corosync.Links.Reading.{or_raise, raise_unless, links}
use crmsh.Corosync.Links.Addresses.{link_at, put_addr, nodes_of}
use crmsh.Corosync.Links.Settings.{with_interfaces}
use crmsh.Corosync.Links.Editing.{
  delete_addr, count_links, other_interfaces, remove_interfaces, drop_link,
}
use crmsh.Corosync.Links.Found.{SameLinks}
use crmsh.Corosync.Links.Unique.{
  canonical, IsUnique, HasUnique, IsUnique-apart, IsUnique-SameLinks, apart-IsUnique,
  canonical-addr, addr-canonical,
}
use crmsh.Corosync.Links.Managed.{IsUnique-list, nodes_of-some}

module _ {Number : Type 0} (int : Text → Option Number) (ip : Text → Option ℕ)
    (no_address : ip [] ≡ none) where
  -- A link is removed from every node.
  In-delete_addr :
      (i : ℕ) (nodes : List Node) (w : Node)
      → In w (delete_addr i nodes)
      → (z : Node) × In z nodes × (w ≡ put_addr i none z)
  unfolding delete_addr
  In-delete_addr i [] w t = absurd t
  In-delete_addr i (x ∷ xs) w (inl e) = (x, inl refl, e)
  In-delete_addr i (x ∷ xs) w (inr t) = let (z, u, e) = In-delete_addr i xs w t in (z, inr u, e)

  canonical-put_addr :
      (i j c : ℕ) (z : Node)
      → canonical ip j (put_addr i none z) ≡ some c
      → canonical ip j z ≡ some c
  canonical-put_addr i j c z e =
      let (b, lt, at, is_c) = canonical-addr ip j c (put_addr i none z) e in
      elim (Bool-cases (j == i)) [
        | inl same ↦ cc (rw same at at)
        | inr other ↦ addr-canonical ip j c z b lt (rw other at at) is_c
      ]

  put_addr-SameLinks :
      (i : ℕ) (x y : Node) → SameLinks x y → SameLinks (put_addr i none x) (put_addr i none y)
  put_addr-SameLinks i x y same j = elim (Bool-cases (j == i)) [
    | inl e ↦ rw e refl
    | inr e ↦ rw e (same j)
  ]

  delete_addr-IsUnique :
      (i : ℕ) (nodes : List Node) → IsUnique ip nodes → IsUnique ip (delete_addr i nodes)
  delete_addr-IsUnique i nodes u =
      apart-IsUnique ip (delete_addr i nodes)
        (λ v w t t'.
          let (x, s, v_is) = In-delete_addr i nodes v t in
          let (y, s', w_is) = In-delete_addr i nodes w t' in
          subst (SameLinks v) (sym w_is) (
            subst (λ v'. SameLinks v' (put_addr i none y)) (sym v_is)
              (put_addr-SameLinks i x y (IsUnique-SameLinks ip nodes x y u s s'))))
        (λ v w j k c t t' e e'.
          let (x, s, v_is) = In-delete_addr i nodes v t in
          let (y, s', w_is) = In-delete_addr i nodes w t' in
          let (same_id, same_link) =
            IsUnique-apart ip nodes x y j k c u s s'
              (canonical-put_addr i j c x (ap (canonical ip j) (sym v_is) ∙ e))
              (canonical-put_addr i k c y (ap (canonical ip k) (sym w_is) ∙ e')) in
          (ap (λ n. n.nodeid) v_is ∙ same_id ∙ sym (ap (λ n. n.nodeid) w_is), same_link))

  pub drop_link-HasUnique :
      (i : ℕ) (config config' : Config)
      → HasUnique ip config
      → drop_link int i config ≡ ok config'
      → HasUnique ip config'
  unfolding drop_link
  drop_link-HasUnique i config config' u h =
      let (ls, h1, k1) = >>=-eq-ok (links int config) _ config' h in
      let (l, h2, k2) = >>=-eq-ok (link_at i ls) _ config' k1 in
      let (v, h3, k3) = >>=-eq-ok (raise_unless last_link (leb 2 (count_links ls))) _ config' k2 in
      let (nl, h4, k4) = >>=-eq-ok (nodes_of config) _ config' k3 in
      subst (HasUnique ip) (ok_inj _ config' k4) (
        delete_addr-IsUnique i nl
          (IsUnique-list int ip no_address config nl (nodes_of-some config nl h4) u))

  pub remove_interfaces-HasUnique :
      (i : ℕ) (config config' : Config)
      → HasUnique ip config
      → remove_interfaces i config ≡ ok config'
      → HasUnique ip config'
  unfolding remove_interfaces
  remove_interfaces-HasUnique i config config' u h =
      let (t, h1, k1) = >>=-eq-ok (or_raise assertion config.totem) _ config' h in
      go t.interfaces k1
    where
      go :
          (o : Option (List Interface))
          → (elim o as (λ x. Result LinkError Config) [
            | none ↦ ok config
            | some xs ↦ do rest ← other_interfaces i xs; ok (with_interfaces (some rest) config)
          ])
            ≡ ok config'
          → HasUnique ip config'
      go none h' = subst (HasUnique ip) (ok_inj config config' h') u
      go (some xs) h' =
          let (rest, h2, k2) = >>=-eq-ok (other_interfaces i xs) _ config' h' in
          subst (HasUnique ip) (ok_inj (with_interfaces (some rest) config) config' k2) u
