-- ===== src/ConfFormat/Query/Paths.antt =====
-- The class `DomQuery` of crmsh/corosync_config_format.py. A path is the list of its keys.
use crmsh.Prelude.{
  ℕ, zero, suc, ◌+◌, Option, none, some, List, [], ◌∷◌, ◌++◌, if◌then◌else◌, Text, starts_with,
  Bool, true, false, ◌&&◌, ◌||◌, same, codes,
}
use crmsh.Prelude.Results.{Result, ok, err, ◌>>=◌}
use crmsh.ConfFormat.Parser.{comment_prefix}
use crmsh.ConfFormat.Dom.{Value, scalar, dict, list, Items, nil, cons, Fields, end, field, lookup}

pub data ConfError : Type 0 where
  key_error index_error type_error : ConfError

-- `while isinstance(node, list): node = node[index]`
unfoldable mutual
  pub pick : ℕ → Value → Result ConfError Value
  pick index (scalar s) = ok (scalar s)
  pick index (dict d) = ok (dict d)
  pick index (list vs) = pick_item index index vs

  -- ... from the item that is `i` places further on.
  pub pick_item : ℕ → ℕ → Items → Result ConfError Value
  pick_item index i nil = err index_error
  pick_item index zero (cons x xs) = pick index x
  pick_item index (suc i) (cons x xs) = pick_item index i xs

abbrev pub or_key_error : Option Value → Result ConfError Value
or_key_error none = err key_error
or_key_error (some v) = ok v

-- `node[key]`, where only a `dict` can be asked.
unfoldable pub child : Text → Value → Result ConfError Value
child key (scalar s) = err key_error
child key (list vs) = err key_error
child key (dict d) = or_key_error (lookup key d)

-- `get`
unfoldable pub get : List Text → ℕ → Value → Result ConfError Value
unfolding child
get [] index node = ok node
get (key ∷ path) index node = do v ← child key node; v' ← pick index v; get path index v'

-- `result.extend(...)` over the items of a list.
unfoldable pub extend_all :
    (Value → Result ConfError (List Value)) → Items → Result ConfError (List Value)
extend_all f nil = ok []
extend_all f (cons x xs) = do vs ← f x; ws ← extend_all f xs; ok (vs ++ ws)

-- A list is searched item by item for the rest of the path.
unfoldable pub each_item :
    (Value → Result ConfError (List Value)) → Value → Result ConfError (List Value)
unfolding extend_all
each_item f (list vs) = extend_all f vs
each_item f (scalar s) = f (scalar s)
each_item f (dict d) = f (dict d)

-- `get_all`
unfoldable pub get_all : List Text → Value → Result ConfError (List Value)
unfolding child each_item
get_all [] node = ok (node ∷ [])
get_all (key ∷ path) node = do v ← child key node; each_item (get_all path) v

-- An entry of the queue: a node and the path that leads to it.
abbrev pub Entry : Type 0
Entry = Value × List Text

unfoldable pub enqueue_fields : List Text → Fields → List Entry → List Entry
enqueue_fields path end queue = queue
enqueue_fields path (field key v fs) queue =
    if starts_with comment_prefix key
    then enqueue_fields path fs queue
    else enqueue_fields path fs (queue ++ (v, path ++ key ∷ []) ∷ [])

unfoldable pub enqueue_items : List Text → Items → List Entry → List Entry
enqueue_items path nil queue = queue
enqueue_items path (cons x xs) queue = enqueue_items path xs (queue ++ (x, path) ∷ [])

unfoldable pub same_path : List Text → List Text → Bool
same_path [] [] = true
same_path [] (k ∷ ks) = false
same_path (k ∷ ks) [] = false
same_path (k ∷ ks) (l ∷ ls) = same k l && same_path ks ls

unfoldable pub has_path : List Text → List (List Text) → Bool
unfolding same_path
has_path p [] = false
has_path p (q ∷ qs) = same_path p q || has_path p qs

-- `result.add(path)`: the set is a list without duplicates.
unfoldable pub add_path : List Text → List (List Text) → List (List Text)
unfolding has_path
add_path path result = if has_path path result then result else path ∷ result

-- The loop of `enumerate_all_paths`. `none` is the end of the fuel.
unfoldable pub enumerate : ℕ → List Entry → List (List Text) → Option (List (List Text))
unfolding enqueue_fields enqueue_items add_path
enumerate fuel [] result = some result
enumerate zero (e ∷ queue) result = none
enumerate (suc fuel) ((dict d, path) ∷ queue) result =
    enumerate fuel (enqueue_fields path d queue) result
enumerate (suc fuel) ((list vs, path) ∷ queue) result =
    enumerate fuel (enqueue_items path vs queue) result
enumerate (suc fuel) ((scalar s, path) ∷ queue) result = enumerate fuel queue (add_path path result)

-- The number of nodes of a tree.
unfoldable mutual
  pub size : Value → ℕ
  size (scalar s) = 1
  size (dict d) = suc (size_fields d)
  size (list vs) = suc (size_items vs)

  pub size_fields : Fields → ℕ
  size_fields end = 0
  size_fields (field k v fs) = size v + size_fields fs

  pub size_items : Items → ℕ
  size_items nil = 0
  size_items (cons x xs) = size x + size_items xs

-- `'.'.join(item)`
unfoldable pub join_path : List Text → Text
join_path [] = []
join_path (k ∷ []) = k
join_path (k ∷ l ∷ path) = k ++ codes "." ++ join_path (l ∷ path)

unfoldable pub join_paths : List (List Text) → List Text
unfolding join_path
join_paths [] = []
join_paths (path ∷ paths) = join_path path ∷ join_paths paths

abbrev pub joined : Option (List (List Text)) → Option (List Text)
joined none = none
joined (some paths) = some (join_paths paths)

-- `enumerate_all_paths`, with one round for each node. The order in which Python goes over a set is left
-- open: it is here the one in which the list has the paths.
unfoldable pub enumerate_all_paths : Value → Option (List Text)
unfolding enumerate size join_paths
enumerate_all_paths dom = joined (enumerate (size dom) ((dom, []) ∷ []) [])
