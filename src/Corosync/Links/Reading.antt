-- ===== src/Corosync/Links/Reading.antt =====
-- `LinkManager.links`. What Python's `int` makes of a string is a parameter.
use crmsh.Prelude.{
  ℕ, zero, suc, Bool, true, false, Option, none, some, List, [], ◌∷◌, ◌==◌, leb, if◌then◌else◌,
  Text, same, codes,
}
use crmsh.Prelude.Results.{Result, ok, err, ◌>>=◌, ◌>>◌}
use crmsh.Corosync.Links.State.{
  Node, Interface, Config, LinkNode, Setting, number, word, Options, Link, LinkError, assertion,
  key_error, bad_number, find,
}

-- `KNET_LINK_NUM_LIMIT`
abbrev pub limit : ℕ
limit = 8

abbrev pub or_raise : {A : Type 0} → LinkError → Option A → Result LinkError A
or_raise e none = err e
or_raise e (some x) = ok x

abbrev pub raise_unless : LinkError → Bool → Result LinkError (Unit {0})
raise_unless e true = ok tt
raise_unless e false = err e

-- `link_nodes.sort(key=lambda node: node.nodeid)`
unfoldable pub insert_node : LinkNode → List LinkNode → List LinkNode
insert_node x [] = x ∷ []
insert_node x (y ∷ ys) =
    let rest = insert_node x ys in if leb x.id y.id then x ∷ y ∷ ys else y ∷ rest

unfoldable pub sort_nodes : List LinkNode → List LinkNode
unfolding insert_node
sort_nodes [] = []
sort_nodes (x ∷ xs) = insert_node x (sort_nodes xs)

-- The nodes of link `i`, in the order of the list.
unfoldable pub read_nodes : ℕ → List Node → Result LinkError (List LinkNode)
read_nodes i [] = ok []
read_nodes i (node ∷ nodelist) = do
  a ← or_raise key_error (node.addr i)
  rest ← read_nodes i nodelist
  ok (record { id = node.nodeid; node_name = node.name; address = a } ∷ rest)

-- `totem_transport`
unfoldable pub totem_transport : Config → Text
totem_transport config = elim config.totem [
  | none ↦ codes "knet"
  | some t ↦ elim t.transport [ none ↦ codes "knet" | some x ↦ x ]
]

abbrev pub interfaces_of : Config → Option (List Interface)
interfaces_of config = elim config.totem [ none ↦ none | some t ↦ t.interfaces ]

-- The names of the fields of `Link` in their order, less `linknumber` and `nodes`.
unfoldable pub option_names : List Text
option_names =
    codes "mcastport"
    ∷ codes "knet_link_priority"
    ∷ codes "knet_ping_interval"
    ∷ codes "knet_ping_timeout"
    ∷ codes "knet_ping_precision"
    ∷ codes "knet_pong_count"
    ∷ codes "knet_transport"
    ∷ []

abbrev pub put_option :
    {Number : Type 0} → Text → Option (Setting Number) → Options Number → Options Number
put_option key v o = λ name. if same name key then v else o name

-- The values of a `dict` as `load_options` is given them: there is no `None` among them.
unfoldable pub given : List (Text × Text) → List (Text × Option Text)
given [] = []
given ((k, v) ∷ d) = (k, some v) ∷ given d

-- The last interface with the number.
unfoldable pub last_interface : ℕ → List Interface → Option Interface
last_interface i [] = none
last_interface i (x ∷ xs) = elim (last_interface i xs) [
  | some y ↦ some y
  | none ↦ elim x.linknumber [ none ↦ none | some n ↦ if n == i then some x else none ]
]

module _ {Number : Type 0} (int : Text → Option Number) where
  -- The value of an option by the type of its field.
  unfoldable pub setting : Text → Text → Result LinkError (Setting Number)
  setting name v =
      if same name (codes "knet_transport")
      then ok (word v)
      else elim (int v) [ none ↦ err bad_number | some n ↦ ok (number n) ]

  -- `__load_option`
  unfoldable pub load_option :
      List (Text × Option Text) → Text → Options Number → Result LinkError (Options Number)
  unfolding setting find
  load_option dict name o = elim (find name dict) [
    | none ↦ ok o
    | some none ↦ ok (put_option name none o)
    | some (some v) ↦ do x ← setting name v; ok (put_option name (some x) o)
  ]

  -- `load_options`
  unfoldable pub load_options :
      List (Text × Option Text) → List Text → Options Number → Result LinkError (Options Number)
  unfolding load_option
  load_options dict [] o = ok o
  load_options dict (name ∷ names) o = do o' ← load_option dict name o; load_options dict names o'

  -- Link `i`, where the first node has it.
  unfoldable pub read_link : ℕ → List Node → Result LinkError (Option (Link Number))
  unfolding read_nodes sort_nodes
  read_link i [] = err assertion
  read_link i (node ∷ nodelist) = elim (node.addr i) [
    | none ↦ ok none
    | some a ↦ do
      found ← read_nodes i (node ∷ nodelist)
      ok (some (record { index = i; nodes = sort_nodes found; options = λ name. none }))
  ]

  -- `count` links from link `i` on.
  unfoldable pub read_links : ℕ → ℕ → List Node → Result LinkError (List (Option (Link Number)))
  unfolding read_link
  read_links zero i nodelist = ok []
  read_links (suc count) i nodelist = do
    l ← read_link i nodelist
    rest ← read_links count (suc i) nodelist
    ok (l ∷ rest)

  -- `links_option_dict`: every interface is loaded, to find its number.
  unfoldable pub check_interfaces : List Interface → Result LinkError (Unit {0})
  unfolding load_options option_names
  check_interfaces [] = ok tt
  check_interfaces (x ∷ xs) = do
    o ← load_options (given x.entries) option_names (λ name. none)
    check_interfaces xs

  unfoldable pub with_options :
      List Interface → Option (Link Number) → Result LinkError (Option (Link Number))
  unfolding last_interface load_options option_names
  with_options interfaces none = ok none
  with_options interfaces (some link) = elim (last_interface link.index interfaces) [
    | none ↦ ok (some link)
    | some x ↦ do
      o ← load_options (given x.entries) option_names link.options
      ok (some (record link { options = o }))
  ]

  unfoldable pub all_with_options :
      List Interface → List (Option (Link Number)) → Result LinkError (List (Option (Link Number)))
  unfolding with_options
  all_with_options interfaces [] = ok []
  all_with_options interfaces (l ∷ ls) = do
    l' ← with_options interfaces l
    ls' ← all_with_options interfaces ls
    ok (l' ∷ ls')

  -- `links`
  unfoldable pub links : Config → Result LinkError (List (Option (Link Number)))
  unfolding totem_transport read_links check_interfaces all_with_options
  links config = do
    raise_unless assertion (same (totem_transport config) (codes "knet"))
    elim config.nodelist [
      | none ↦ ok []
      | some nodelist ↦ do
        ls ← read_links limit 0 nodelist
        elim (interfaces_of config) [
          | none ↦ ok ls
          | some interfaces ↦ do check_interfaces interfaces; all_with_options interfaces ls
        ]
    ]
