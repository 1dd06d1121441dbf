-- ===== src/Corosync/Links/Addresses.antt =====
-- How `LinkManager` of crmsh/corosync.py changes the addresses of a link. `ip` is the address object
-- that Python's `ipaddress` makes of a string, as a number, or `none` where it raises.
use crmsh.Prelude.{
  ℕ, zero, suc, Bool, true, false, not, Option, none, some, List, [], ◌∷◌, ◌==◌, leb, if◌then◌else◌,
  Text, same, is_empty,
}
use crmsh.Prelude.Results.{Result, ok, err, ◌>>=◌, ◌>>◌}
use crmsh.Corosync.Links.State.{
  Node, Config, LinkNode, Link, LinkError, key_error, index_error, bad_address, no_link,
  unknown_node, duplicate, find_id,
}
use crmsh.Corosync.Links.Reading.{limit, or_raise, links}

-- `links[i]`
unfoldable pub nth : {A : Type 0} → ℕ → List A → Option A
nth i [] = none
nth zero (x ∷ xs) = some x
nth (suc i) (x ∷ xs) = nth i xs

unfoldable pub contains_name : Text → List Text → Bool
contains_name name [] = false
contains_name name (x ∷ xs) = let rest = contains_name name xs in if same name x then true else rest

-- `existing_addr_node_map`, the latest entry first.
unfoldable pub node_addresses :
    (Text → Option ℕ) → List LinkNode → List (ℕ × ℕ) → Result LinkError (List (ℕ × ℕ))
node_addresses ip [] known = ok known
node_addresses ip (x ∷ xs) known =
    if is_empty x.address
    then node_addresses ip xs known
    else (do c ← or_raise bad_address (ip x.address); node_addresses ip xs ((c, x.id) ∷ known))

module _ {Number : Type 0} where
  -- The link that an operation is for: `linknumber >= KNET_LINK_NUM_LIMIT or links[linknumber] is None`.
  unfoldable pub link_at : ℕ → List (Option (Link Number)) → Result LinkError (Link Number)
  unfolding nth
  link_at i ls = if leb limit i then err no_link else elim (nth i ls) [
    | none ↦ err index_error
    | some none ↦ err no_link
    | some (some l) ↦ ok l
  ]

  unfoldable pub existing_addresses :
      (Text → Option ℕ)
      → List (Option (Link Number))
      → List (ℕ × ℕ)
      → Result LinkError (List (ℕ × ℕ))
  unfolding node_addresses
  existing_addresses ip [] known = ok known
  existing_addresses ip (none ∷ ls) known = existing_addresses ip ls known
  existing_addresses ip (some l ∷ ls) known = do
    known' ← node_addresses ip l.nodes known
    existing_addresses ip ls known'

-- `next((node for node in ... if node.nodeid == nodeid), None)`
unfoldable pub find_node : ℕ → List LinkNode → Option LinkNode
find_node nodeid [] = none
find_node nodeid (x ∷ xs) = if x.id == nodeid then some x else find_node nodeid xs

-- `found.addr = addr`
unfoldable pub set_address : ℕ → Text → List LinkNode → List LinkNode
set_address nodeid a [] = []
set_address nodeid a (x ∷ xs) =
    let rest = set_address nodeid a xs in
    if x.id == nodeid then record x { address = a } ∷ xs else x ∷ rest

-- Whether the address of a node becomes another one.
unfoldable pub is_change : (Text → Option ℕ) → Text → ℕ → Result LinkError Bool
is_change ip old canonical =
    if is_empty old
    then ok true
    else (do c ← or_raise bad_address (ip old); ok (not (c == canonical)))

unfoldable pub raise_if_known : Bool → Text → ℕ → Option ℕ → Result LinkError (Unit {0})
raise_if_known changes a nodeid none = ok tt
raise_if_known changes a nodeid (some other) =
    if changes then err (duplicate a nodeid other) else ok tt

-- The loop over the new addresses.
unfoldable pub claim_addresses :
    (Text → Option ℕ)
    → List (ℕ × Text)
    → List LinkNode
    → List (ℕ × ℕ)
    → Result LinkError (List LinkNode)
unfolding find_node set_address is_change raise_if_known find_id
claim_addresses ip [] nodes known = ok nodes
claim_addresses ip ((nodeid, a) ∷ given) nodes known = do
  found ← or_raise (unknown_node nodeid) (find_node nodeid nodes)
  canonical ← or_raise bad_address (ip a)
  changes ← is_change ip found.address canonical
  raise_if_known changes a nodeid (find_id canonical known)
  claim_addresses ip given (set_address nodeid a nodes) ((canonical, found.id) ∷ known)

-- `node[f'ring{linknumber}_addr'] = ...`
abbrev pub put_addr : ℕ → Option Text → Node → Node
put_addr i a node = record node { addr = λ j. if j == i then a else node.addr j }

unfoldable pub write_addr : ℕ → List (ℕ × Text) → Node → Node
unfolding find_id
write_addr i given node = elim (find_id node.nodeid given) [
  | none ↦ node
  | some a ↦ put_addr i (some a) node
]

unfoldable pub map_nodes : (Node → Node) → List Node → List Node
map_nodes f [] = []
map_nodes f (x ∷ xs) = f x ∷ map_nodes f xs

abbrev pub nodes_of : Config → Result LinkError (List Node)
nodes_of config = or_raise key_error config.nodelist

module _ {Number : Type 0} (ip : Text → Option ℕ) where
  -- `__upsert_node_addr_impl`, for the link that is given with its nodes.
  unfoldable pub upsert_node_addr :
      Config
      → List (Option (Link Number))
      → ℕ
      → List LinkNode
      → List (ℕ × Text)
      → Result LinkError Config
  unfolding existing_addresses claim_addresses map_nodes write_addr
  upsert_node_addr config ls i nodes given = do
    known ← existing_addresses ip ls []
    nodes' ← claim_addresses ip given nodes known
    nodelist ← nodes_of config
    ok (record config { nodelist = some (map_nodes (write_addr i given) nodelist) })

module _ {Number : Type 0} (int : Text → Option Number) (ip : Text → Option ℕ) where
  -- `update_node_addr`
  unfoldable pub update_node_addr : ℕ → List (ℕ × Text) → Config → Result LinkError Config
  unfolding links link_at upsert_node_addr
  update_node_addr i given config = do
    ls ← links int config
    l ← link_at i ls
    upsert_node_addr ip config ls i l.nodes given
