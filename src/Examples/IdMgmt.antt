-- ===== src/Examples/IdMgmt.antt =====
-- crmsh/idmgmt.py on a primitive with two operations.
use crmsh.Prelude.{
  ◌≡◌, ◌⊎◌, refl, arith, true, false, ◌||◌, ◌&&◌, not, some, [], ◌∷◌, Text, codes, same, same-eq,
  replace_char, if◌then◌else◌, str,
}
use crmsh.Xml
use crmsh.Xml.{Node, node}
use crmsh.IdMgmt.Store.{Store, is_used, rename, push_state, pop_state, store_xml, replace_xml}
use crmsh.IdMgmt.New.{new, proposed_id}
use crmsh.IdMgmt.Laws.{names}
use crmsh.IdMgmt.Trees.{mentions}
use crmsh.IdMgmt.Replace.{Stored, Refused, Replaced, Restored, store_xml_lem, replace_xml_lem}
use crmsh.IdMgmt.Fresh.{new_is_fresh, new_hash_clash, rename_lem}
use crmsh.IdMgmt.Sessions.{Session, new_id, edit, pop-push_state}

abbrev with_id : Text → Text → Xml.Nodes → Node
with_id t i cs = node t ((codes "id", i) ∷ []) cs

abbrev vip : Node
vip =
    with_id (codes "primitive") (codes "vip")
      (Xml.cons (with_id (codes "op") (codes "vip-monitor-10s") Xml.nil) Xml.nil)

abbrev vip2 : Node
vip2 = with_id (codes "primitive") (codes "vip") Xml.nil

abbrev store : Store
store = record {
  ids = codes "vip" ∷ codes "vip-monitor-10s" ∷ codes "db" ∷ [];
  saved = [];
  ok = true;
}

store_xml_lem_example :
    Stored vip store (store_xml vip true store) ⊎ Refused vip store (store_xml vip true store)
store_xml_lem_example = store_xml_lem vip store

vip_known : (j : Text) → mentions vip j ≡ true → is_used j store ≡ true
unfolding mentions is_used Xml.get_attribute Xml.is_resource
vip_known j h = ground (arith, same-eq (codes "vip") j)

replace_xml_lem_example :
    Replaced vip vip2 store (replace_xml vip vip2 store)
    ⊎ Restored vip vip2 store (replace_xml vip vip2 store)
replace_xml_lem_example = replace_xml_lem vip vip2 store vip_known

abbrev nvpair : Node
nvpair = node (codes "nvpair") ((codes "name", codes "ip") ∷ []) Xml.nil

proposed_nvpair : proposed_id nvpair (codes "vip") ≡ codes "vip-ip"
unfolding proposed_id
proposed_nvpair = refl

new_is_fresh_example :
    (is_used (new nvpair (codes "vip") store).0 store ≡ false)
    × ((j : Text)
        → is_used j (new nvpair (codes "vip") store).1
          ≡ (is_used j store || names (some (new nvpair (codes "vip") store).0) j))
unfolding proposed_id is_used str same
new_is_fresh_example = new_is_fresh nvpair (codes "vip") store 0 (ground arith) (omega arith) refl

abbrev hash_store : Store
hash_store = record { ids = codes "n1-attr.a" ∷ []; saved = []; ok = true }

abbrev hash_pair : Node
hash_pair = node (codes "nvpair") ((codes "name", codes "attr#a") ∷ []) Xml.nil

new_hash_clash_example : is_used (new hash_pair (codes "n1") hash_store).0 hash_store ≡ true
unfolding proposed_id is_used replace_char same
new_hash_clash_example = new_hash_clash hash_pair (codes "n1") hash_store refl refl

rename_lem_example :
    is_used (codes "web") (rename (some (codes "db")) (some (codes "web")) store) ≡ (
      if is_used (codes "db") store && not (is_used (codes "web") store)
      then (is_used (codes "web") store && not (same (codes "db") (codes "web")))
        || same (codes "web") (codes "web")
      else is_used (codes "web") store)
rename_lem_example = rename_lem (codes "db") (codes "web") (codes "web") store refl refl

pop-push_state_example :
    let t = edit (new_id nvpair (codes "vip")) (push_state store) in
    ((pop_state t).0 ≡ true)
    × ((pop_state t).1.ids ≡ store.ids)
    × ((pop_state t).1.saved ≡ store.saved)
pop-push_state_example =
    pop-push_state store (Session.step (new_id nvpair (codes "vip")) Session.start)
