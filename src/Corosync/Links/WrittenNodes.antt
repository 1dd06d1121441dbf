-- ===== src/Corosync/Links/WrittenNodes.antt =====
-- The nodes of the configuration after the addresses of a link are written; crmsh/corosync.py.
use crmsh.Prelude.{
  ℕ, ◌≡◌, refl, ap, ◌∙◌, true, false, none, some, List, [], ◌∷◌, ◌==◌, ==_iff, Text, Option-cases,
  inl, inr, In,
}
use crmsh.Corosync.Links.State.{Node, find_id}
use crmsh.Corosync.Links.Addresses.{put_addr, write_addr, map_nodes}

pub In-map_nodes :
    (f : Node → Node) (nodes : List Node) (w : Node)
    → In w (map_nodes f nodes)
    → (z : Node) × In z nodes × (w ≡ f z)
unfolding map_nodes
In-map_nodes f [] w t = absurd t
In-map_nodes f (x ∷ xs) w (inl e) = (x, inl refl, e)
In-map_nodes f (x ∷ xs) w (inr t) = let (z, u, e) = In-map_nodes f xs w t in (z, inr u, e)

-- A node after the addresses of link `i` are written.
pub write_addr-kept :
    (i : ℕ) (given : List (ℕ × Text)) (z : Node)
    → find_id z.nodeid given ≡ none
    → write_addr i given z ≡ z
unfolding write_addr
write_addr-kept i given z e = rw (e, write_addr) refl

pub write_addr-given :
    (i : ℕ) (given : List (ℕ × Text)) (z : Node) (a : Text)
    → find_id z.nodeid given ≡ some a
    → write_addr i given z ≡ put_addr i (some a) z
unfolding write_addr
write_addr-given i given z a e = rw (e, write_addr) refl

pub nodeid-write_addr :
    (i : ℕ) (given : List (ℕ × Text)) (z : Node) → (write_addr i given z).nodeid ≡ z.nodeid
nodeid-write_addr i given z = elim (Option-cases (find_id z.nodeid given)) [
  | inl e ↦ ap (λ y. y.nodeid) (write_addr-kept i given z e)
  | inr (a, e) ↦ ap (λ y. y.nodeid) (write_addr-given i given z a e)
]

-- The other links keep their addresses.
pub addr-write_addr-other :
    (i j : ℕ) (given : List (ℕ × Text)) (z : Node)
    → (j == i) ≡ false
    → (write_addr i given z).addr j ≡ z.addr j
addr-write_addr-other i j given z ne = elim (Option-cases (find_id z.nodeid given)) [
  | inl e ↦ ap (λ y. y.addr j) (write_addr-kept i given z e)
  | inr (a, e) ↦ ap (λ y. y.addr j) (write_addr-given i given z a e) ∙ rw ne refl
]

pub addr-write_addr-given :
    (i : ℕ) (given : List (ℕ × Text)) (z : Node) (a : Text)
    → find_id z.nodeid given ≡ some a
    → (write_addr i given z).addr i ≡ some a
addr-write_addr-given i given z a e =
    let same_i : (i == i) ≡ true = (==_iff i i).1 refl in
    ap (λ y. y.addr i) (write_addr-given i given z a e) ∙ rw same_i refl
