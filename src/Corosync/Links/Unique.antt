-- ===== src/Corosync/Links/Unique.antt =====
-- When the addresses of the nodes are unique, for `LinkManager` of crmsh/corosync.py.
use crmsh.Prelude.{
  ℕ, ◌<◌, ◌≡◌, refl, sym, ap, ◌∙◌, Bool, true, false, ◌&&◌, not, Option, none, some, List, ◌==◌,
  ==_iff, if◌then◌else◌, ltb, Text, arith, Bool-cases, Option-cases, inl, inr, In, All, All-In,
  In-All,
}
use mathlib.Core.Option.{some_inj}
use crmsh.Corosync.Links.State.{Node, Config}
use crmsh.Corosync.Links.Reading.{limit}
use crmsh.Corosync.Links.Found.{SameLinks}

abbrev pub parsed : (Text → Option ℕ) → Option Text → Option ℕ
parsed ip none = none
parsed ip (some a) = ip a

-- The address object of a node on a link that the program reads.
unfoldable pub canonical : (Text → Option ℕ) → ℕ → Node → Option ℕ
canonical ip i x = if ltb i limit then parsed ip (x.addr i) else none

unfoldable pub same_address : Option ℕ → Option ℕ → Bool
same_address none o = false
same_address (some c) none = false
same_address (some c) (some d) = c == d

-- Two nodes, or one node on two links, have one address. Nodes are told apart by their ids.
unfoldable pub clash : (Text → Option ℕ) → ℕ → Node → ℕ → Node → Bool
unfolding canonical same_address
clash ip i x j y =
    same_address (canonical ip i x) (canonical ip j y) && not (x.nodeid == y.nodeid && i == j)

abbrev pub Separate : (Text → Option ℕ) → Node → Node → Type 0
Separate ip x y = (i j : ℕ) → clash ip i x j y ≡ false

-- All nodes have the same links, and no address is there twice.
abbrev pub IsUnique : (Text → Option ℕ) → List Node → Type 0
IsUnique ip nodes = All (λ x. All (λ y. SameLinks x y × Separate ip x y) nodes) nodes

abbrev pub HasUnique : (Text → Option ℕ) → Config → Type 0
HasUnique ip config = elim config.nodelist [ none ↦ Unit | some nodes ↦ IsUnique ip nodes ]

only_one :
    (o o' : Option ℕ) (a b i j c : ℕ)
    → (same_address o o' && not (a == b && i == j)) ≡ false
    → o ≡ some c
    → o' ≡ some c
    → (a ≡ b) × (i ≡ j)
unfolding same_address
only_one none o' a b i j c h e e' = cc
only_one (some d) none a b i j c h e e' = cc
only_one (some d) (some d') a b i j c h e e' = numbers (some_inj.0 e ∙ sym (some_inj.0 e')) h
  where
    numbers : d ≡ d' → (d == d' && not (a == b && i == j)) ≡ false → (a ≡ b) × (i ≡ j)
    numbers e2 h2 = (ground arith, ground arith)

one_only :
    (o o' : Option ℕ) (a b i j : ℕ)
    → ((c : ℕ) → o ≡ some c → o' ≡ some c → (a ≡ b) × (i ≡ j))
    → (same_address o o' && not (a == b && i == j)) ≡ false
unfolding same_address
one_only none o' a b i j f = refl
one_only (some d) none a b i j f = refl
one_only (some d) (some d') a b i j f = elim (Bool-cases (d == d')) [
  | inr ne ↦ rw ne refl
  | inl same_d ↦
      let (same_a, same_i) = f d refl (ap some (sym ((==_iff d d').0 same_d))) in
      rw ((==_iff a b).1 same_a, (==_iff i j).1 same_i, same_d) refl
]

module _ (ip : Text → Option ℕ) where
  pub IsUnique-apart :
      (nodes : List Node) (x y : Node) (i j c : ℕ)
      → IsUnique ip nodes
      → In x nodes
      → In y nodes
      → canonical ip i x ≡ some c
      → canonical ip j y ≡ some c
      → (x.nodeid ≡ y.nodeid) × (i ≡ j)
  unfolding clash
  IsUnique-apart nodes x y i j c u t t' e e' =
      only_one (canonical ip i x) (canonical ip j y) x.nodeid y.nodeid i j c
        ((All-In _ nodes (All-In _ nodes u x t) y t').1 i j) e e'

  pub IsUnique-SameLinks :
      (nodes : List Node) (x y : Node) → IsUnique ip nodes → In x nodes → In y nodes → SameLinks x y
  IsUnique-SameLinks nodes x y u t t' = (All-In _ nodes (All-In _ nodes u x t) y t').0

  pub apart-IsUnique :
      (nodes : List Node)
      → ((x y : Node) → In x nodes → In y nodes → SameLinks x y)
      → ((x y : Node) (i j c : ℕ)
          → In x nodes
          → In y nodes
          → canonical ip i x ≡ some c
          → canonical ip j y ≡ some c
          → (x.nodeid ≡ y.nodeid) × (i ≡ j))
      → IsUnique ip nodes
  unfolding clash
  apart-IsUnique nodes same_links apart = In-All _ nodes (λ x t. In-All _ nodes (λ y t'. (
    same_links x y t t',
    λ i j.
        one_only (canonical ip i x) (canonical ip j y) x.nodeid y.nodeid i j
          (λ c. apart x y i j c t t'),
  )))

  -- What a canonical address stands for.
  pub canonical-addr :
      (i c : ℕ) (x : Node)
      → canonical ip i x ≡ some c
      → (b : Text) × (i < limit) × (x.addr i ≡ some b) × (ip b ≡ some c)
  unfolding canonical
  canonical-addr i c x e = elim (Bool-cases (ltb i limit)) [
    | inr ge ↦ cc (rw (ge, canonical) at e)
    | inl lt ↦ elim (Option-cases (x.addr i)) [
      | inl no_addr ↦ cc (rw (no_addr) at (rw (lt, canonical) at e))
      | inr (b, at) ↦ (b, ground arith, at, rw at at (rw (lt, canonical) at e))
    ]
  ]

  pub addr-canonical :
      (i c : ℕ) (x : Node) (b : Text)
      → i < limit
      → x.addr i ≡ some b
      → ip b ≡ some c
      → canonical ip i x ≡ some c
  unfolding canonical
  addr-canonical i c x b lt e e' =
      let is_read : ltb i limit ≡ true = ground arith in rw (is_read, canonical) (rw e e')
