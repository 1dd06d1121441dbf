-- ===== src/Examples/Corosync.antt =====
-- A small corosync.conf with two nodes.
use crmsh.Prelude.{◌≡◌, refl, false, List, [], ◌∷◌, Text, codes, same}
use crmsh.Prelude.Results.{ok, err}
use crmsh.ConfFormat.Dom.{
  Value, scalar, dict, list, Items, nil, cons, Fields, end, field, lookup, insert,
}
use crmsh.ConfFormat.Query.Paths.{key_error, get, get_all}
use crmsh.ConfFormat.Query.Removal.{remove}
use crmsh.ConfFormat.Query.Removed.{Gone, remove-Gone}
use crmsh.Corosync.Config.{set, is_known_list}
use crmsh.Corosync.Written.{set-get}

abbrev text : Text → Text → Fields → Fields
text key value fs = field key (scalar value) fs

abbrev first_node : Fields
first_node = text (codes "name") (codes "alice") (text (codes "nodeid") (codes "1") end)

abbrev second_node : Fields
second_node = text (codes "nodeid") (codes "2") end

abbrev nodes : Items
nodes = cons (dict first_node) (cons (dict second_node) nil)

abbrev conf : Fields
conf = field (codes "nodelist") (dict (field (codes "node") (list nodes) end)) end

-- The name of one node is not found, as the other has none.
one_name_missing :
    get_all (codes "nodelist" ∷ codes "node" ∷ codes "name" ∷ []) (dict conf) ≡ err key_error
unfolding get_all lookup same
one_name_missing = refl

abbrev parent : List Text
parent = codes "nodelist" ∷ codes "node" ∷ []

abbrev without_name : Value
without_name = dict (
    field (codes "nodelist")
      (dict (
        field (codes "node")
          (list (cons (dict (text (codes "nodeid") (codes "1") end)) (cons (dict second_node) nil)))
          end))
      end)

removes_name : remove parent (codes "name") 0 (dict conf) ≡ ok without_name
unfolding remove lookup insert same
removes_name = refl

other_key : same (codes "name") (codes "nodeid") ≡ false
unfolding same
other_key = refl

remove-Gone_example :
    (d d' : Fields) × (get parent 0 (dict conf) ≡ ok (dict d))
    × (get parent 0 without_name ≡ ok (dict d'))
    × (lookup (codes "nodeid") d' ≡ lookup (codes "nodeid") d)
    × Gone 0 (lookup (codes "name") d) (lookup (codes "name") d')
remove-Gone_example =
    remove-Gone parent (codes "name") (codes "nodeid") 0 (dict conf) without_name other_key
      removes_name

abbrev renamed : Fields
renamed =
    field (codes "nodelist")
      (dict (
        field (codes "node")
          (list (
            cons (dict first_node) (
              cons
                (dict (text (codes "nodeid") (codes "2") (text (codes "name") (codes "bob") end)))
                nil)))
          end))
      end

sets_name :
    set (codes "nodelist") (codes "node" ∷ codes "name" ∷ []) (scalar (codes "bob")) 1 conf
    ≡ ok renamed
unfolding set lookup insert same is_known_list
sets_name = refl

set-get_example :
    get (codes "nodelist" ∷ codes "node" ∷ codes "name" ∷ []) 1 (dict renamed)
    ≡ ok (scalar (codes "bob"))
unfolding lookup same
set-get_example =
    set-get (codes "nodelist") (codes "node" ∷ codes "name" ∷ []) (codes "bob") 1 conf renamed
      (tt, (tt, tt)) sets_name
