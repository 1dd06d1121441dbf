-- ===== src/ConfFormat/Builder.antt =====
-- The class `DomParser` of crmsh/corosync_config_format.py.
--
-- `__node_stack` holds references into the tree under `_root`. The model keeps a reference as the
-- path of section names that leads to it: a name leads to the `dict` at that key, or to the last
-- item of the list there, which is the section that was entered last.
use crmsh.Prelude.{none, some, List, [], ◌∷◌, ◌++◌, if◌then◌else◌, Text, same}
use crmsh.ConfFormat.Dom.{
  Value, scalar, dict, list, Items, nil, cons, Fields, end, field, lookup, insert, append_item,
}
use crmsh.ConfFormat.Parser.{Result, ok, ◌>>=◌, Handler, parse}

pub record Builder : Type 0 where
  pub root : Fields
  -- the names of the sections above and at the current node, outermost first
  pub path : List Text

-- Replaces a section by what `f` makes of it; anything else is left alone.
abbrev pub on_dict : (Fields → Fields) → Value → Value
on_dict f (dict d) = dict (f d)
on_dict f v = v

unfoldable pub on_last : (Fields → Fields) → Items → Items
on_last f nil = nil
on_last f (cons x nil) = cons (on_dict f x) nil
on_last f (cons x (cons y ys)) = cons x (on_last f (cons y ys))

-- The section that a name leads to.
unfoldable pub on_section : (Fields → Fields) → Value → Value
unfolding on_last
on_section f (scalar s) = scalar s
on_section f (dict d) = dict (f d)
on_section f (list vs) = list (on_last f vs)

unfoldable pub at_key : Text → (Value → Value) → Fields → Fields
at_key key f end = end
at_key key f (field k v fs) = if same k key then field k (f v) fs else field k v (at_key key f fs)

-- Writes through the reference that `path` stands for.
unfoldable pub at_path : List Text → (Fields → Fields) → Fields → Fields
at_path [] f d = f d
at_path (k ∷ path) f d = at_key k (on_section (at_path path f)) d

-- The value at a key that has one already, when `new` is added under that key.
unfoldable pub join_value : Value → Value → Value
join_value (list vs) new = list (append_item vs new)
join_value old new = list (cons old (cons new nil))

-- `enter_section` and `on_key_value` on the current node.
unfoldable pub add_value : Text → Value → Fields → Fields
unfolding join_value
add_value key new d = elim (lookup key d) [
  | none ↦ insert key new d
  | some node ↦ insert key (join_value node new) d
]

unfoldable pub enter_section : Text → Builder → Builder
enter_section name b = record {
  root = at_path b.path (add_value name (dict end)) b.root;
  path = b.path ++ name ∷ [];
}

unfoldable pub on_key_value : Text → Text → Builder → Builder
on_key_value key value b = record b { root = at_path b.path (add_value key (scalar value)) b.root }

-- All but the last item.
unfoldable pub drop_last {ℓ} : {A : Type ℓ} → List A → List A
drop_last [] = []
drop_last (x ∷ []) = []
drop_last (x ∷ y ∷ xs) = x ∷ drop_last (y ∷ xs)

unfoldable pub exit_section : Text → Builder → Builder
exit_section name b = record b { path = drop_last b.path }

abbrev pub dom_handler : Handler Builder
dom_handler = record {
  enter_section = enter_section;
  exit_section = exit_section;
  on_key_value = on_key_value;
}

-- `DomParser(ifile).dom()`
unfoldable pub parse_dom : List Text → Result Fields
parse_dom ifile = do b ← parse dom_handler ifile (record { root = end; path = [] }); ok b.root
