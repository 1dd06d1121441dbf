-- ===== src/Examples/Links.antt =====
-- A cluster of two nodes with one link, and calls that change its links.
use crmsh.Prelude.{
  ℕ, ◌+◌, arith, ◌≡◌, refl, sym, ap, ◌∙◌, subst, Option, none, some, List, [], ◌∷◌, ◌==◌, ==_iff,
  if◌then◌else◌, Text, codes, Bool-cases, inl, inr, In,
}
use mathlib.Core.Option.{some_inj}
use crmsh.Corosync.Links.State.{Node, Config, find_id}
use crmsh.Corosync.Links.Found.{SameLinks}
use crmsh.Corosync.Links.Unique.{canonical, canonical-addr, IsUnique, HasUnique, apart-IsUnique}
use crmsh.Corosync.Links.Requests.{
  Request, addresses, settings, addition, removal, after_calls, after_calls-HasUnique,
}

-- Addresses of one letter.
abbrev letter : Text → Option ℕ
letter [] = none
letter (c ∷ s) = some c

abbrev node : ℕ → ℕ → Node
node k c = record {
  nodeid = k;
  name = codes "n";
  addr = λ i. if i == 0 then some (c ∷ []) else none;
}

abbrev nodes : List Node
nodes = node 1 b'a' ∷ node 2 b'b' ∷ []

abbrev config : Config
config = record {
  totem = some (record { transport = none; interfaces = none });
  nodelist = some nodes;
}

abbrev requests : List Request
requests =
    addresses 0 ((1, codes "c") ∷ [])
    ∷ addition ((1, codes "d") ∷ (2, codes "e") ∷ [])
        ((codes "mcastport", some (codes "5405")) ∷ [])
    ∷ addresses 1 ((2, codes "c") ∷ [])
    ∷ settings 1 ((codes "mcastport", none) ∷ [])
    ∷ removal 0
    ∷ []

node-canonical : (k a i c : ℕ) → canonical letter i (node k a) ≡ some c → (i ≡ 0) × (a ≡ c)
node-canonical k a i c e =
    let (b, lt, at, is_c) = canonical-addr letter i c (node k a) e in
    elim (Bool-cases (i == 0)) [
      | inl zero_i ↦
          ((==_iff i 0).0 zero_i, some_inj.0 (ap letter (some_inj.0 (rw zero_i at at)) ∙ is_c))
      | inr other ↦ cc (rw other at at)
    ]

nodes-same : (j k c d : ℕ) → SameLinks (node j c) (node k d)
nodes-same j k c d i = elim (Bool-cases (i == 0)) [ inl e ↦ rw e refl | inr e ↦ rw e refl ]

-- Each node of the cluster has the letter that its number counts.
nodes-numbered : (x : Node) → In x nodes → (k : ℕ) × (x ≡ node k (96 + k))
nodes-numbered x (inl e) = (1, e)
nodes-numbered x (inr (inl e)) = (2, e)
nodes-numbered x (inr (inr t)) = absurd t

nodes-IsUnique : IsUnique letter nodes
nodes-IsUnique =
    apart-IsUnique letter nodes
      (λ x y t u.
        let (k, x_is) = nodes-numbered x t in
        let (l, y_is) = nodes-numbered y u in
        subst (SameLinks x) (sym y_is) (
          subst (λ x'. SameLinks x' (node l (96 + l))) (sym x_is)
            (nodes-same k l (96 + k) (96 + l))))
      (λ x y i j c t u e e'.
        let (k, x_is) = nodes-numbered x t in
        let (l, y_is) = nodes-numbered y u in
        let (i_is, k_is) = node-canonical k (96 + k) i c (ap (canonical letter i) (sym x_is) ∙ e) in
        let (j_is, l_is) =
          node-canonical l (96 + l) j c (ap (canonical letter j) (sym y_is) ∙ e') in
        let same : k ≡ l = omega (arith, k_is, l_is) in
        (ap (λ n. n.nodeid) x_is ∙ same ∙ sym (ap (λ n. n.nodeid) y_is), i_is ∙ sym j_is))

after_calls-HasUnique_example :
    HasUnique letter (after_calls (λ t. some t) (λ t. t) letter requests config)
unfolding find_id
after_calls-HasUnique_example =
    after_calls-HasUnique (λ t. some t) (λ t. t) letter refl requests config
      ((refl, tt), ((refl, (refl, tt)), ((refl, tt), (tt, (tt, tt))))) nodes-IsUnique
