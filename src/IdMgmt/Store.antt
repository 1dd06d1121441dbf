-- ===== src/IdMgmt/Store.antt =====
-- crmsh/idmgmt.py: the store of the ids in use, and its saved copies.
--
-- The module's globals are one record that each function takes and returns. `_id_store` is a dict
-- whose values are all 1: the model keeps its keys. Messages to the log are left out.
use crmsh.Prelude.{
  Bool, true, false, not, ◌||◌, Option, none, some, List, [], ◌∷◌, ◌++◌, if◌then◌else◌, Text, codes,
  same,
}
use crmsh.Xml
use crmsh.Xml.{Node, node, xmltraverse, xmltraverse_thin}

pub record Store : Type 0 where
  pub ids : List Text
  pub saved : List (List Text)
  pub ok : Bool

-- Dict operations on the keys.
unfoldable pub contains : List Text → Text → Bool
contains [] i = false
contains (x ∷ xs) i = same x i || contains xs i

unfoldable pub without : Text → List Text → List Text
without i [] = []
without i (x ∷ xs) = let rest = without i xs in if same x i then rest else x ∷ rest

unfoldable pub push_state : Store → Store
push_state s = record s { saved = s.ids ∷ s.saved }

-- The result of `_state.pop()`; `none` is the `IndexError`.
unfoldable pub pop_state : Store → Bool × Store
pop_state s = elim s.saved [
  | [] ↦ (false, s)
  | top ∷ rest ↦ (true, record s { ids = top; saved = rest })
]

-- `none` is the `IndexError` that `except KeyError` lets through.
unfoldable pub drop_state : Store → Option Store
drop_state s = elim s.saved [ [] ↦ none | _ ∷ rest ↦ some (record s { saved = rest }) ]

unfoldable pub clean_state : Store → Store
clean_state s = record s { saved = [] }

unfoldable pub clear : Store → Store
clear s = record s { ids = []; saved = [] }

unfoldable pub is_used : Text → Store → Bool
unfolding contains
is_used i s = contains s.ids i

-- `save` and `remove` of an id that may be `None`.
unfoldable pub save : Option Text → Store → Store
unfolding is_used
save none s = s
save (some []) s = s
save (some (c ∷ i)) s = if is_used (c ∷ i) s then s else record s { ids = s.ids ++ (c ∷ i) ∷ [] }

unfoldable pub remove : Option Text → Store → Store
unfolding without
remove none s = s
remove (some []) s = s
remove (some (c ∷ i)) s = record s { ids = without (c ∷ i) s.ids }

unfoldable pub rename : Option Text → Option Text → Store → Store
rename (some (c ∷ i)) (some (d ∷ j)) s =
    if not (is_used (c ∷ i) s)
    then s
    else if is_used (d ∷ j) s
    then s
    else save (some (d ∷ j)) (remove (some (c ∷ i)) s)
rename _ _ s = s

unfoldable pub check_id : Option Text → Store → Store
check_id none s = s
check_id (some []) s = s
check_id (some (c ∷ i)) s = if is_used (c ∷ i) s then record s { ok = false } else s

unfoldable pub check_node : Node → Store → Store
unfolding check_id
check_node n s = check_id (Xml.get n (codes "id")) s

unfoldable pub store_node : Node → Store → Store
store_node n s = save (Xml.get n (codes "id")) s

unfoldable pub drop_node : Node → Store → Store
drop_node n s = remove (Xml.get n (codes "id")) s

unfoldable pub check_xml : Node → Store → Bool × Store
check_xml n s = let s' = xmltraverse_thin check_node n (record s { ok = true }) in (s'.ok, s')

-- `store_xml(node, thin)`
unfoldable pub store_xml : Node → Bool → Store → Bool × Store
store_xml n thin s =
    let (free, s') = check_xml n s in
    if not free
    then (false, s')
    else if thin
    then (true, xmltraverse_thin store_node n s')
    else (true, xmltraverse store_node n s')

unfoldable pub remove_xml : Node → Store → Store
remove_xml n s = xmltraverse_thin drop_node n s

unfoldable pub replace_xml : Node → Node → Store → Bool × Store
replace_xml oldnode newnode s =
    let (stored, s') = store_xml newnode true (remove_xml oldnode s) in
    if stored then (true, s') else (false, (store_xml oldnode true s').1)
