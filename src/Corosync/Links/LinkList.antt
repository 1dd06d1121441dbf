-- ===== src/Corosync/Links/LinkList.antt =====
-- The list that `LinkManager.links` of crmsh/corosync.py returns.
use crmsh.Prelude.{
  ℕ, zero, suc, ◌+◌, ◌≡◌, refl, ap, ◌∙◌, subst, Option, none, some, List, [], ◌∷◌, Text, same,
  codes, arith, Option-cases, inl, inr, In,
}
use mathlib.Core.Option.{some_inj}
use crmsh.Prelude.Results.{Result, ok, ◌>>◌, >>=-eq-ok, ok_inj}
use crmsh.Corosync.Links.State.{Node, Interface, Config, Link, LinkError, assertion}
use crmsh.Corosync.Links.Reading.{
  limit, raise_unless, interfaces_of, sort_nodes, read_nodes, read_link, read_links, with_options,
  last_interface, load_options, given, option_names, all_with_options, check_interfaces, links,
  totem_transport,
}
use crmsh.Corosync.Links.Addresses.{nth}
use crmsh.Corosync.Links.Found.{
  Reads, read_nodes-Reads, sort_nodes-Reads, SameLinks, is_there, absent,
}

module _ {Number : Type 0} (nodelist : List Node) where
  abbrev pub LinkOf : ℕ → Option (Link Number) → Type 0
  LinkOf i none = (z : Node) → In z nodelist → z.addr i ≡ none
  LinkOf i (some l) = Reads i l.nodes nodelist

  -- The links from link `i` on.
  abbrev pub LinksOf : ℕ → ℕ → List (Option (Link Number)) → Type 0
  LinksOf zero i [] = Unit
  LinksOf zero i (l ∷ ls) = ⊥
  LinksOf (suc count) i [] = ⊥
  LinksOf (suc count) i (l ∷ ls) = LinkOf i l × LinksOf count (suc i) ls

  with_options-LinkOf :
      (int : Text → Option Number) (interfaces : List Interface) (i : ℕ)
      (l l' : Option (Link Number))
      → with_options int interfaces l ≡ ok l'
      → LinkOf i l
      → LinkOf i l'
  unfolding with_options
  with_options-LinkOf int interfaces i none l' h o = subst (LinkOf i) (ok_inj none l' h) o
  with_options-LinkOf int interfaces i (some l) l' h o =
      elim (Option-cases (last_interface l.index interfaces)) [
        | inl e ↦ subst (LinkOf i) (ok_inj (some l) l' (rw (e, with_options) at h)) o
        | inr (x, e) ↦
            let (opts, h1, k1) =
              >>=-eq-ok (load_options int (given x.entries) option_names l.options) _ l'
                (rw (e, with_options) at h) in
            subst (LinkOf i) (ok_inj (some (record l { options = opts })) l' k1) o
      ]

  all_with_options-LinksOf :
      (int : Text → Option Number) (interfaces : List Interface) (count i : ℕ)
      (ls ls' : List (Option (Link Number)))
      → all_with_options int interfaces ls ≡ ok ls'
      → LinksOf count i ls
      → LinksOf count i ls'
  unfolding all_with_options
  all_with_options-LinksOf int interfaces zero i [] ls' h o =
      subst (LinksOf zero i) (ok_inj [] ls' h) o
  all_with_options-LinksOf int interfaces zero i (l ∷ ls) ls' h o = absurd o
  all_with_options-LinksOf int interfaces (suc count) i [] ls' h o = absurd o
  all_with_options-LinksOf int interfaces (suc count) i (l ∷ ls) ls' h o =
      let (l2, h1, k1) = >>=-eq-ok (with_options int interfaces l) _ ls' h in
      let (ls2, h2, k2) = >>=-eq-ok (all_with_options int interfaces ls) _ ls' k1 in
      subst (LinksOf (suc count) i) (ok_inj (l2 ∷ ls2) ls' k2) (
        with_options-LinkOf int interfaces i l l2 h1 o.0,
        all_with_options-LinksOf int interfaces count (suc i) ls ls2 h2 o.1,
      )

  pub nth-LinkOf :
      (count i k : ℕ) (ls : List (Option (Link Number))) (l : Option (Link Number))
      → LinksOf count i ls
      → nth k ls ≡ some l
      → LinkOf (i + k) l
  unfolding nth
  nth-LinkOf count i k [] l o h = cc
  nth-LinkOf zero i k (x ∷ ls) l o h = absurd o
  nth-LinkOf (suc count) i zero (x ∷ ls) l o h =
      let here : i ≡ i + 0 = omega arith in
      subst (λ j. LinkOf j l) here (subst (LinkOf i) (some_inj.0 h) o.0)
  nth-LinkOf (suc count) i (suc k) (x ∷ ls) l o h =
      let there : suc i + k ≡ i + suc k = omega arith in
      subst (λ j. LinkOf j l) there (nth-LinkOf count (suc i) k ls l o.1 h)

-- The links of a list of nodes that all have the same ones.
read_link-LinkOf :
    {Number : Type 0} (int : Text → Option Number) (i : ℕ) (nodelist : List Node)
    (l : Option (Link Number))
    → ((x y : Node) → In x nodelist → In y nodelist → SameLinks x y)
    → read_link int i nodelist ≡ ok l
    → LinkOf nodelist i l
unfolding read_link
read_link-LinkOf int i [] l same_links h = cc
read_link-LinkOf int i (n ∷ ns) l same_links h = elim (Option-cases (n.addr i)) [
  | inl e ↦
      subst (LinkOf (n ∷ ns) i) (ok_inj none l (rw (e, read_link) at h))
        (λ z t. absent (z.addr i) (same_links z n t (inl refl) i ∙ ap is_there e))
  | inr (a, e) ↦
      let (found, h1, k1) = >>=-eq-ok (read_nodes i (n ∷ ns)) _ l (rw (e, read_link) at h) in
      subst (LinkOf (n ∷ ns) i)
        (ok_inj (some (record { index = i; nodes = sort_nodes found; options = λ name. none })) l
          k1)
        (sort_nodes-Reads i (n ∷ ns) found (read_nodes-Reads i (n ∷ ns) found h1))
]

read_links-LinksOf :
    {Number : Type 0} (int : Text → Option Number) (count i : ℕ) (nodelist : List Node)
    (ls : List (Option (Link Number)))
    → ((x y : Node) → In x nodelist → In y nodelist → SameLinks x y)
    → read_links int count i nodelist ≡ ok ls
    → LinksOf nodelist count i ls
unfolding read_links
read_links-LinksOf int zero i nodelist ls same_links h =
    subst (LinksOf nodelist zero i) (ok_inj [] ls h) tt
read_links-LinksOf int (suc count) i nodelist ls same_links h =
    let (l, h1, k1) = >>=-eq-ok (read_link int i nodelist) _ ls h in
    let (ls', h2, k2) = >>=-eq-ok (read_links int count (suc i) nodelist) _ ls k1 in
    subst (LinksOf nodelist (suc count) i) (ok_inj (l ∷ ls') ls k2) (
      read_link-LinkOf int i nodelist l same_links h1,
      read_links-LinksOf int count (suc i) nodelist ls' same_links h2,
    )

-- The options that the interfaces give leave the nodes of a link alone.
interfaces-LinksOf :
    {Number : Type 0} (int : Text → Option Number) (nodelist : List Node)
    (o : Option (List Interface)) (ls ls' : List (Option (Link Number)))
    → (elim o as (λ x. Result LinkError (List (Option (Link Number)))) [
      | none ↦ ok ls
      | some interfaces ↦ do check_interfaces int interfaces; all_with_options int interfaces ls
    ])
      ≡ ok ls'
    → LinksOf nodelist limit 0 ls
    → LinksOf nodelist limit 0 ls'
interfaces-LinksOf int nodelist none ls ls' h l =
    subst (LinksOf nodelist limit 0) (ok_inj ls ls' h) l
interfaces-LinksOf int nodelist (some interfaces) ls ls' h l =
    let (u, h1, k1) = >>=-eq-ok (check_interfaces int interfaces) _ ls' h in
    all_with_options-LinksOf nodelist int interfaces limit 0 ls ls' k1 l

-- What `links` returns, where the configuration has nodes.
pub links-LinksOf :
    {Number : Type 0} (int : Text → Option Number) (config : Config) (nodelist : List Node)
    (ls : List (Option (Link Number)))
    → config.nodelist ≡ some nodelist
    → ((x y : Node) → In x nodelist → In y nodelist → SameLinks x y)
    → links int config ≡ ok ls
    → LinksOf nodelist limit 0 ls
unfolding links
links-LinksOf int config nodelist ls is_list same_links h =
    let (u, h1, k1) =
      >>=-eq-ok (raise_unless assertion (same (totem_transport config) (codes "knet"))) _ ls h in
    let (ls', h2, k2) = >>=-eq-ok (read_links int limit 0 nodelist) _ ls (rw is_list at k1) in
    interfaces-LinksOf int nodelist (interfaces_of config) ls' ls k2
      (read_links-LinksOf int limit 0 nodelist ls' same_links h2)
