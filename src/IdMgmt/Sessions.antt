-- ===== src/IdMgmt/Sessions.antt =====
-- `push_state` and `pop_state` of crmsh/idmgmt.py around any edits of the ids.
use crmsh.Prelude.{
  ◌≡◌, refl, ◌∙◌, Bool, true, Option, some, none, [], ◌∷◌, arith, if◌then◌else◌, Text,
}
use crmsh.Xml.{
  Node, Nodes, node, nil, cons, is_resource, xmltraverse, xmltraverse_children, xmltraverse_thin,
  xmltraverse_thin_children,
}
use crmsh.IdMgmt.Store.{
  Store, save, remove, rename, check_id, check_node, store_node, drop_node, check_xml, store_xml,
  remove_xml, replace_xml, push_state, pop_state, drop_state,
}
use crmsh.IdMgmt.New.{new}

saved-save : (o : Option Text) (s : Store) → (save o s).saved ≡ s.saved
unfolding save
saved-save none s = refl
saved-save (some []) s = refl
saved-save (some (c ∷ i)) s = ground arith

saved-remove : (o : Option Text) (s : Store) → (remove o s).saved ≡ s.saved
unfolding remove
saved-remove none s = refl
saved-remove (some []) s = refl
saved-remove (some (c ∷ i)) s = refl

saved-rename : (o p : Option Text) (s : Store) → (rename o p s).saved ≡ s.saved
unfolding rename
saved-rename none p s = refl
saved-rename (some []) p s = refl
saved-rename (some (c ∷ i)) none s = refl
saved-rename (some (c ∷ i)) (some []) s = refl
saved-rename (some (c ∷ i)) (some (d ∷ j)) s =
    ground
      (arith, saved-save (some (d ∷ j)) (remove (some (c ∷ i)) s), saved-remove (some (c ∷ i)) s)

saved-check_id : (o : Option Text) (s : Store) → (check_id o s).saved ≡ s.saved
unfolding check_id
saved-check_id none s = refl
saved-check_id (some []) s = refl
saved-check_id (some (c ∷ i)) s = ground arith

module _ (f : Node → Store → Store) (keeps : (n : Node) (s : Store) → (f n s).saved ≡ s.saved) where
  mutual
    unfolding xmltraverse_thin

    saved-thin : (n : Node) (s : Store) → (xmltraverse_thin f n s).saved ≡ s.saved
    saved-thin (node t a cs) s = keeps _ _ ∙ saved-thin_children cs s

    saved-thin_children :
        (cs : Nodes) (s : Store) → (xmltraverse_thin_children f cs s).saved ≡ s.saved
    saved-thin_children nil s = refl
    saved-thin_children (cons c cs) s = ground (
      arith,
      saved-thin_children cs (if is_resource c then s else xmltraverse_thin f c s),
      saved-thin c s,
    )

  mutual
    unfolding xmltraverse

    saved-all : (n : Node) (s : Store) → (xmltraverse f n s).saved ≡ s.saved
    saved-all (node t a cs) s = saved-all_children cs s

    saved-all_children : (cs : Nodes) (s : Store) → (xmltraverse_children f cs s).saved ≡ s.saved
    saved-all_children nil s = refl
    saved-all_children (cons c cs) s =
        saved-all_children cs (xmltraverse f c (f c s)) ∙ saved-all c (f c s) ∙ keeps c s

saved-check_node : (n : Node) (s : Store) → (check_node n s).saved ≡ s.saved
unfolding check_node
saved-check_node n s = saved-check_id _ s

saved-store_node : (n : Node) (s : Store) → (store_node n s).saved ≡ s.saved
unfolding store_node
saved-store_node n s = saved-save _ s

saved-drop_node : (n : Node) (s : Store) → (drop_node n s).saved ≡ s.saved
unfolding drop_node
saved-drop_node n s = saved-remove _ s

saved-store_xml : (n : Node) (thin : Bool) (s : Store) → (store_xml n thin s).1.saved ≡ s.saved
unfolding store_xml check_xml
saved-store_xml n thin s =
    let checked = xmltraverse_thin check_node n (record s { ok = true }) in
    ground (
      arith,
      saved-thin check_node saved-check_node n (record s { ok = true }),
      saved-thin store_node saved-store_node n checked,
      saved-all store_node saved-store_node n checked,
    )

saved-remove_xml : (n : Node) (s : Store) → (remove_xml n s).saved ≡ s.saved
unfolding remove_xml
saved-remove_xml n s = saved-thin drop_node saved-drop_node n s

saved-replace_xml : (o n : Node) (s : Store) → (replace_xml o n s).1.saved ≡ s.saved
unfolding replace_xml
saved-replace_xml o n s = ground (
  arith,
  saved-store_xml o true (store_xml n true (remove_xml o s)).1,
  saved-store_xml n true (remove_xml o s),
  saved-remove_xml o s,
)

saved-new : (n : Node) (pfx : Text) (s : Store) → (new n pfx s).1.saved ≡ s.saved
unfolding new
saved-new n pfx s = saved-save _ s

-- The functions of the module that change the ids.
pub data Edit : Type 0 where
  save_id : Option Text → Edit
  remove_id : Option Text → Edit
  rename_id : Option Text → Option Text → Edit
  store_tree : Node → Bool → Edit
  remove_tree : Node → Edit
  replace_tree : Node → Node → Edit
  new_id : Node → Text → Edit

abbrev pub edit : Edit → Store → Store
edit (save_id o) s = save o s
edit (remove_id o) s = remove o s
edit (rename_id o p) s = rename o p s
edit (store_tree n thin) s = (store_xml n thin s).1
edit (remove_tree n) s = remove_xml n s
edit (replace_tree o n) s = (replace_xml o n s).1
edit (new_id n pfx) s = (new n pfx s).1

saved-edit : (e : Edit) (s : Store) → (edit e s).saved ≡ s.saved
saved-edit (save_id o) s = saved-save o s
saved-edit (remove_id o) s = saved-remove o s
saved-edit (rename_id o p) s = saved-rename o p s
saved-edit (store_tree n thin) s = saved-store_xml n thin s
saved-edit (remove_tree n) s = saved-remove_xml n s
saved-edit (replace_tree o n) s = saved-replace_xml o n s
saved-edit (new_id n pfx) s = saved-new n pfx s

-- Edits, and inner pairs of `push_state` with `pop_state` or `drop_state`, from one store to another.
pub data Session : Store → Store → Type 0 where
  start : {s : Store} → Session s s
  step : {s t : Store} (e : Edit) → Session s t → Session s (edit e t)
  roll_back : {s t u : Store} → Session s t → Session (push_state t) u → Session s (pop_state u).1
  commit :
      {s t u v : Store}
      → Session s t
      → Session (push_state t) u
      → drop_state u ≡ some v
      → Session s v

saved-Session : {s t : Store} → Session s t → t.saved ≡ s.saved
unfolding push_state pop_state drop_state
saved-Session start = refl
saved-Session (step {s} {t} e r) = saved-edit e t ∙ saved-Session r
saved-Session (roll_back {s} {t} {u} r inner) =
    rw (saved-Session inner, pop_state) (saved-Session r)
saved-Session (commit {s} {t} {u} {v} r inner d) =
    ground (arith, saved-Session inner, saved-Session r)

-- After `push_state`, whatever edits and inner pairs follow, `pop_state` succeeds and brings back
-- the ids and the saved copies of before.
pub pop-push_state :
    (s : Store) {t : Store}
    → Session (push_state s) t
    → ((pop_state t).0 ≡ true) × ((pop_state t).1.ids ≡ s.ids) × ((pop_state t).1.saved ≡ s.saved)
unfolding push_state pop_state
pop-push_state s {t} r = (
  rw (saved-Session r, pop_state),
  rw (saved-Session r, pop_state),
  rw (saved-Session r, pop_state),
)
