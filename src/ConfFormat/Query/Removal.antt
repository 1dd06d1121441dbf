-- ===== src/ConfFormat/Query/Removal.antt =====
-- `DomQuery.remove` of crmsh/corosync_config_format.py, as a change of the node that `get` finds.
use crmsh.Prelude.{ℕ, zero, suc, Option, none, some, List, [], ◌∷◌, if◌then◌else◌, Text, same}
use crmsh.Prelude.Results.{Result, ok, err, ◌>>=◌}
use crmsh.ConfFormat.Dom.{
  Value, scalar, dict, list, Items, nil, cons, Fields, end, field, lookup, insert,
}
use crmsh.ConfFormat.Query.Paths.{ConfError, key_error, index_error, or_key_error}

-- A change of the node that `while isinstance(node, list): node = node[index]` leads to.
unfoldable mutual
  pub on_pick : ℕ → (Value → Result ConfError Value) → Value → Result ConfError Value
  on_pick index f (scalar s) = f (scalar s)
  on_pick index f (dict d) = f (dict d)
  on_pick index f (list vs) = do vs' ← on_item index index f vs; ok (list vs')

  pub on_item : ℕ → ℕ → (Value → Result ConfError Value) → Items → Result ConfError Items
  on_item index i f nil = err index_error
  on_item index zero f (cons x xs) = do x' ← on_pick index f x; ok (cons x' xs)
  on_item index (suc i) f (cons x xs) = do xs' ← on_item index i f xs; ok (cons x xs')

-- ... and of the node at a path.
unfoldable pub at_node :
    List Text → ℕ → (Value → Result ConfError Value) → Value → Result ConfError Value
unfolding on_pick on_item
at_node [] index f node = f node
at_node (key ∷ path) index f (scalar s) = err key_error
at_node (key ∷ path) index f (list vs) = err key_error
at_node (key ∷ path) index f (dict d) = do
  v ← or_key_error (lookup key d)
  v' ← on_pick index (at_node path index f) v
  ok (dict (insert key v' d))

-- `del node[key]`; a `dict` has no key twice.
unfoldable pub delete : Text → Fields → Fields
delete key end = end
delete key (field k v fs) = let rest = delete key fs in if same k key then rest else field k v rest

-- `del value[index]`
unfoldable pub delete_item : ℕ → Items → Result ConfError Items
delete_item i nil = err index_error
delete_item zero (cons x xs) = ok xs
delete_item (suc i) (cons x xs) = do xs' ← delete_item i xs; ok (cons x xs')

unfoldable pub remove_value : Text → ℕ → Option Value → Fields → Result ConfError Value
unfolding delete delete_item
remove_value key index none d = err key_error
remove_value key index (some (list vs)) d = do
  vs' ← delete_item index vs
  ok (dict (insert key (list vs') d))
remove_value key index (some (scalar s)) d = ok (dict (delete key d))
remove_value key index (some (dict n)) d = ok (dict (delete key d))

-- The last step: only a `dict` has keys to remove.
unfoldable pub remove_key : Text → ℕ → Value → Result ConfError Value
unfolding remove_value
remove_key key index (scalar s) = err key_error
remove_key key index (list vs) = err key_error
remove_key key index (dict d) = remove_value key index (lookup key d) d

-- `remove`, on a path of the keys `parent` and a last one.
unfoldable pub remove : List Text → Text → ℕ → Value → Result ConfError Value
unfolding at_node remove_key
remove parent key index dom = at_node parent index (remove_key key index) dom
