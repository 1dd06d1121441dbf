-- ===== src/ConfFormat/Dom.antt =====
-- The tree that `DomParser` builds: Python's nested `dict`, `list` and `str`. A `dict` keeps the order
-- of insertion and no key twice.
use crmsh.Prelude.{Option, none, some, List, [], ◌∷◌, if◌then◌else◌, Text, same}

mutual
  pub data Value : Type 0 where
    scalar : Text → Value
    dict : Fields → Value
    list : Items → Value

  pub data Items : Type 0 where
    nil : Items
    cons : Value → Items → Items

  pub data Fields : Type 0 where
    end : Fields
    field : Text → Value → Fields → Fields

-- `d.get(key)`, and `d[key]` where `none` is the `KeyError`.
unfoldable pub lookup : Text → Fields → Option Value
lookup key end = none
lookup key (field k v fs) = if same k key then some v else lookup key fs

-- `d[key] = value`: an old key keeps its place.
unfoldable pub insert : Text → Value → Fields → Fields
insert key v end = field key v end
insert key v (field k w fs) = if same k key then field k v fs else field k w (insert key v fs)

-- `li.append(value)`
unfoldable pub append_item : Items → Value → Items
append_item nil v = cons v nil
append_item (cons x xs) v = cons x (append_item xs v)

-- `d.keys()`
abbrev pub keys : Fields → List Text
keys end = []
keys (field k v fs) = k ∷ keys fs
