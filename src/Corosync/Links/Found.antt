-- ===== src/Corosync/Links/Found.antt =====
-- What `LinkManager.links` of crmsh/corosync.py reads: the addresses of the nodes, link by link.
use crmsh.Prelude.{
  ℕ, ◌≡◌, refl, sym, ap, ◌∙◌, subst, Bool, true, false, Option, none, some, List, [], ◌∷◌,
  if◌then◌else◌, leb, Text, ◌⊎◌, inl, inr, In,
}
use mathlib.Core.Option.{some_inj}
use crmsh.Prelude.Results.{ok, >>=-eq-ok, ok_inj}
use crmsh.Corosync.Links.State.{Node, LinkNode, key_error}
use crmsh.Corosync.Links.Reading.{or_raise, insert_node, sort_nodes, read_nodes}
use crmsh.Corosync.Links.Members.{or_raise-ok}

-- The two places of an item that is inserted, by the test.
inserted :
    (b : Bool) (x y z : LinkNode) (zs rest : List LinkNode)
    → (In x rest → (x ≡ y) ⊎ In x zs)
    → In x (if b then y ∷ z ∷ zs else z ∷ rest)
    → (x ≡ y) ⊎ In x (z ∷ zs)
inserted true x y z zs rest f t = t
inserted false x y z zs rest f (inl e) = inr (inl e)
inserted false x y z zs rest f (inr t) = elim (f t) [ inl e ↦ inl e | inr u ↦ inr (inr u) ]

to_inserted :
    (b : Bool) (x y z : LinkNode) (zs rest : List LinkNode)
    → ((x ≡ y) ⊎ In x zs → In x rest)
    → (x ≡ y) ⊎ In x (z ∷ zs)
    → In x (if b then y ∷ z ∷ zs else z ∷ rest)
to_inserted true x y z zs rest f t = t
to_inserted false x y z zs rest f (inl e) = inr (f (inl e))
to_inserted false x y z zs rest f (inr (inl e)) = inl e
to_inserted false x y z zs rest f (inr (inr t)) = inr (f (inr t))

In-insert_node :
    (x y : LinkNode) (ys : List LinkNode)
    → (In x (insert_node y ys) → (x ≡ y) ⊎ In x ys) × ((x ≡ y) ⊎ In x ys → In x (insert_node y ys))
unfolding insert_node
In-insert_node x y [] = (λ t. t, λ t. t)
In-insert_node x y (z ∷ zs) =
    let (forth, back) = In-insert_node x y zs in
    (inserted (leb y.id z.id) x y z zs _ forth, to_inserted (leb y.id z.id) x y z zs _ back)

In-sort_nodes :
    (x : LinkNode) (xs : List LinkNode)
    → (In x (sort_nodes xs) → In x xs) × (In x xs → In x (sort_nodes xs))
unfolding sort_nodes
In-sort_nodes x [] = (λ t. t, λ t. t)
In-sort_nodes x (y ∷ ys) =
    let (forth, back) = In-insert_node x y (sort_nodes ys) in
    let (forth', back') = In-sort_nodes x ys in
    (
      λ t. elim (forth t) [ inl e ↦ inl e | inr u ↦ inr (forth' u) ],
      λ t. back (elim t [ inl e ↦ inl e | inr u ↦ inr (back' u) ]),
    )

abbrev pub entry_of : Node → Text → LinkNode
entry_of z a = record { id = z.nodeid; node_name = z.name; address = a }

-- The nodes of link `i`, and those of the configuration.
pub record Reads (i : ℕ) (nodes : List LinkNode) (nodelist : List Node) : Type 0 where
  pub into : (z : Node) (a : Text) → In z nodelist → z.addr i ≡ some a → In (entry_of z a) nodes
  pub from :
      (x : LinkNode)
      → In x nodes
      → (z : Node) × In z nodelist × (z.nodeid ≡ x.id) × (z.addr i ≡ some x.address)
  pub full : (z : Node) → In z nodelist → (a : Text) × (z.addr i ≡ some a)

Reads-cons :
    (i : ℕ) (n : Node) (a : Text) (ns : List Node) (nodes : List LinkNode)
    → n.addr i ≡ some a
    → Reads i nodes ns
    → Reads i (entry_of n a ∷ nodes) (n ∷ ns)
Reads-cons i n a ns nodes e r = record {
  into = λ z b t h. elim t [
    | inl z_is ↦ inl (
        ap (entry_of z) (some_inj.0 (sym h ∙ ap (λ y. y.addr i) z_is ∙ e))
        ∙ ap (λ y. entry_of y a) z_is)
    | inr u ↦ inr (r.into z b u h)
  ];
  from = λ x t. elim t [
    | inl x_is ↦ (n, inl refl, ap (λ y. y.id) (sym x_is), e ∙ ap (λ y. some y.address) (sym x_is))
    | inr u ↦ let (z, t', same_id, h) = r.from x u in (z, inr t', same_id, h)
  ];
  full = λ z t. elim t [ inl z_is ↦ (a, ap (λ y. y.addr i) z_is ∙ e) | inr u ↦ r.full z u ];
}

pub read_nodes-Reads :
    (i : ℕ) (nodelist : List Node) (nodes : List LinkNode)
    → read_nodes i nodelist ≡ ok nodes
    → Reads i nodes nodelist
unfolding read_nodes
read_nodes-Reads i [] [] h = record {
  into = λ z a t e. absurd t;
  from = λ x t. absurd t;
  full = λ z t. absurd t;
}
read_nodes-Reads i [] (x ∷ xs) h = cc
read_nodes-Reads i (n ∷ ns) nodes h =
    let (a, h1, k1) = >>=-eq-ok (or_raise key_error (n.addr i)) _ nodes h in
    let (rest, h2, k2) = >>=-eq-ok (read_nodes i ns) _ nodes k1 in
    subst (λ xs. Reads i xs (n ∷ ns)) (ok_inj (entry_of n a ∷ rest) nodes k2)
      (Reads-cons i n a ns rest (or_raise-ok key_error (n.addr i) a h1)
        (read_nodes-Reads i ns rest h2))

pub sort_nodes-Reads :
    (i : ℕ) (nodelist : List Node) (nodes : List LinkNode)
    → Reads i nodes nodelist
    → Reads i (sort_nodes nodes) nodelist
sort_nodes-Reads i nodelist nodes r = record {
  into = λ z a t e. (In-sort_nodes (entry_of z a) nodes).1 (r.into z a t e);
  from = λ x t. r.from x ((In-sort_nodes x nodes).0 t);
  full = r.full;
}

-- Whether a key is there.
abbrev pub is_there : {A : Type 0} → Option A → Bool
is_there none = false
is_there (some x) = true

-- Every node has an address for the same links.
abbrev pub SameLinks : Node → Node → Type 0
SameLinks x y = (i : ℕ) → is_there (x.addr i) ≡ is_there (y.addr i)

pub absent : {A : Type 0} (o : Option A) → is_there o ≡ false → o ≡ none
absent none h = refl
absent (some x) h = cc
