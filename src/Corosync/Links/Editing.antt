-- ===== src/Corosync/Links/Editing.antt =====
-- `LinkManager.add_link` and `LinkManager.remove_link` of crmsh/corosync.py.
use crmsh.Prelude.{ℕ, suc, Option, none, some, List, [], ◌∷◌, ◌==◌, leb, if◌then◌else◌, Text}
use crmsh.Prelude.Results.{Result, ok, err, ◌>>=◌, ◌>>◌}
use crmsh.Corosync.Links.State.{
  Node, Interface, Config, LinkNode, Link, LinkError, assertion, key_error, stop_iteration,
  last_link, too_many, missing_nodes, find_id,
}
use crmsh.Corosync.Links.Reading.{or_raise, raise_unless, links}
use crmsh.Corosync.Links.Addresses.{link_at, put_addr, nodes_of, upsert_node_addr}
use crmsh.Corosync.Links.Settings.{with_interfaces, update_link}

unfoldable pub unspecified : List LinkNode → List (ℕ × Text) → List ℕ
unfolding find_id
unspecified [] given = []
unspecified (x ∷ xs) given = elim (find_id x.id given) [
  | none ↦ x.id ∷ unspecified xs given
  | some a ↦ unspecified xs given
]

abbrev pub raise_missing : List ℕ → Result LinkError (Unit {0})
raise_missing [] = ok tt
raise_missing (n ∷ ns) = err (missing_nodes (n ∷ ns))

unfoldable pub without_addresses : List LinkNode → List LinkNode
without_addresses [] = []
without_addresses (x ∷ xs) = record x { address = [] } ∷ without_addresses xs

-- An operation leaves a configuration and returns, or raises: what it has changed stays.
abbrev pub Ended : Type 0
Ended = Config × Result LinkError (Unit {0})

abbrev pub end_with : Config → Result LinkError Config → Ended
end_with config (ok config') = (config', ok tt)
end_with config (err e) = (config, err e)

-- `del node[f'ring{linknumber}_addr']`
unfoldable pub delete_addr : ℕ → List Node → List Node
delete_addr i [] = []
delete_addr i (node ∷ nodes) = put_addr i none node ∷ delete_addr i nodes

unfoldable pub other_interfaces : ℕ → List Interface → Result LinkError (List Interface)
other_interfaces i [] = ok []
other_interfaces i (x ∷ xs) = do
  n ← or_raise key_error x.linknumber
  rest ← other_interfaces i xs
  ok (if n == i then rest else x ∷ rest)

unfoldable pub remove_interfaces : ℕ → Config → Result LinkError Config
unfolding other_interfaces
remove_interfaces i config = do
  t ← or_raise assertion config.totem
  elim t.interfaces [
    | none ↦ ok config
    | some xs ↦ do rest ← other_interfaces i xs; ok (with_interfaces (some rest) config)
  ]

module _ {Number : Type 0} where
  -- `next((i for i, link in enumerate(links) if link is None), -1)`
  unfoldable pub next_free : ℕ → List (Option (Link Number)) → Option ℕ
  next_free i [] = none
  next_free i (none ∷ ls) = some i
  next_free i (some l ∷ ls) = next_free (suc i) ls

  unfoldable pub first_link : List (Option (Link Number)) → Option (Link Number)
  first_link [] = none
  first_link (none ∷ ls) = first_link ls
  first_link (some l ∷ ls) = some l

  unfoldable pub count_links : List (Option (Link Number)) → ℕ
  count_links [] = 0
  count_links (none ∷ ls) = count_links ls
  count_links (some l ∷ ls) = suc (count_links ls)

module _ {Number : Type 0} (int : Text → Option Number) (ip : Text → Option ℕ) where
  -- The first half of `add_link`: the number of the new link, and the configuration with its addresses.
  unfoldable pub add_addresses : List (ℕ × Text) → Config → Result LinkError (ℕ × Config)
  unfolding links next_free first_link unspecified without_addresses upsert_node_addr
  add_addresses given config = do
    ls ← links int config
    i ← or_raise too_many (next_free 0 ls)
    l ← or_raise stop_iteration (first_link ls)
    raise_missing (unspecified l.nodes given)
    config' ← upsert_node_addr ip config ls i (without_addresses l.nodes) given
    ok (i, config')

module _ {Number : Type 0} (int : Text → Option Number) where
  unfoldable pub drop_link : ℕ → Config → Result LinkError Config
  unfolding links link_at count_links delete_addr
  drop_link i config = do
    ls ← links int config
    l ← link_at i ls
    raise_unless last_link (leb 2 (count_links ls))
    nodelist ← nodes_of config
    ok (record config { nodelist = some (delete_addr i nodelist) })

  -- `remove_link`
  unfoldable pub remove_link : ℕ → Config → Ended
  unfolding drop_link remove_interfaces
  remove_link i config = elim (drop_link i config) [
    | err e ↦ (config, err e)
    | ok config' ↦ end_with config' (remove_interfaces i config')
  ]

module _ {Number : Type 0} (int : Text → Option Number) (str : Number → Text)
    (ip : Text → Option ℕ) where
  -- `add_link`
  unfoldable pub add_link : List (ℕ × Text) → List (Text × Option Text) → Config → Ended
  unfolding add_addresses update_link
  add_link given options config = elim (add_addresses int ip given config) [
    | err e ↦ (config, err e)
    | ok (i, config') ↦ end_with config' (update_link int str i options config')
  ]
