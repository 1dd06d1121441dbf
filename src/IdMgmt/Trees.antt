-- ===== src/IdMgmt/Trees.antt =====
-- `check_xml`, `store_xml`, `remove_xml` and `replace_xml` of crmsh/idmgmt.py against the set of the
-- ids that a tree mentions.
use crmsh.Prelude.{
  ◌≡◌, ap, ◌∙◌, Bool, true, false, not, ◌&&◌, ◌||◌, if◌then◌else◌, Option, none, some, List, [],
  ◌∷◌, arith, inl, inr, Bool-cases, Text, codes, same_iff, same_refl,
}
use crmsh.Xml
use crmsh.Xml.{
  Node, Nodes, node, nil, cons, is_resource, xmltraverse_thin, xmltraverse_thin_children,
}
use crmsh.IdMgmt.Store.{Store, contains, is_used, check_id, check_node, store_node, drop_node}
use crmsh.IdMgmt.Laws.{names, is_used-save, is_used-remove}

-- The ids of a tree, those of resources inside it left out.
unfoldable mutual
  pub mentions : Node → Text → Bool
  mentions (node t a cs) j = mentions_children cs j || names (Xml.get (node t a cs) (codes "id")) j

  pub mentions_children : Nodes → Text → Bool
  mentions_children nil j = false
  mentions_children (cons c cs) j =
      (if is_resource c then false else mentions c j) || mentions_children cs j

mutual
  unfolding mentions xmltraverse_thin store_node

  pub is_used-store_nodes :
      (n : Node) (s : Store) (j : Text)
      → is_used j (xmltraverse_thin store_node n s) ≡ (is_used j s || mentions n j)
  is_used-store_nodes (node t a cs) s j = ground (
    arith,
    is_used-save (Xml.get (node t a cs) (codes "id")) (xmltraverse_thin_children store_node cs s) j,
    is_used-store_children cs s j,
  )

  is_used-store_children :
      (cs : Nodes) (s : Store) (j : Text)
      → is_used j (xmltraverse_thin_children store_node cs s)
        ≡ (is_used j s || mentions_children cs j)
  is_used-store_children nil s j = ground arith
  is_used-store_children (cons c cs) s j = ground (
    arith,
    is_used-store_children cs (if is_resource c then s else xmltraverse_thin store_node c s) j,
    is_used-store_nodes c s j,
  )

mutual
  unfolding mentions xmltraverse_thin drop_node

  pub is_used-drop_nodes :
      (n : Node) (s : Store) (j : Text)
      → is_used j (xmltraverse_thin drop_node n s) ≡ (is_used j s && not (mentions n j))
  is_used-drop_nodes (node t a cs) s j = ground (
    arith,
    is_used-remove (Xml.get (node t a cs) (codes "id")) (xmltraverse_thin_children drop_node cs s)
        j,
    is_used-drop_children cs s j,
  )

  is_used-drop_children :
      (cs : Nodes) (s : Store) (j : Text)
      → is_used j (xmltraverse_thin_children drop_node cs s)
        ≡ (is_used j s && not (mentions_children cs j))
  is_used-drop_children nil s j = ground arith
  is_used-drop_children (cons c cs) s j = ground (
    arith,
    is_used-drop_children cs (if is_resource c then s else xmltraverse_thin drop_node c s) j,
    is_used-drop_nodes c s j,
  )

-- Whether an id of the tree is among `ids`.
abbrev pub taken : Option Text → List Text → Bool
taken none ids = false
taken (some []) ids = false
taken (some (c ∷ i)) ids = contains ids (c ∷ i)

unfoldable mutual
  pub conflicts : Node → List Text → Bool
  conflicts (node t a cs) ids =
      conflicts_children cs ids || taken (Xml.get (node t a cs) (codes "id")) ids

  pub conflicts_children : Nodes → List Text → Bool
  conflicts_children nil ids = false
  conflicts_children (cons c cs) ids =
      (if is_resource c then false else conflicts c ids) || conflicts_children cs ids

check_id_lem :
    (o : Option Text) (ids : List Text) (sv : List (List Text)) (ok : Bool)
    → check_id o (record { ids = ids; saved = sv; ok = ok })
      ≡ record { ids = ids; saved = sv; ok = ok && not (taken o ids) }
unfolding check_id is_used
check_id_lem none ids sv ok = ground arith
check_id_lem (some []) ids sv ok = ground arith
check_id_lem (some (c ∷ i)) ids sv ok = ground arith

mutual
  unfolding conflicts xmltraverse_thin check_node

  pub check_nodes :
      (n : Node) (ids : List Text) (sv : List (List Text)) (ok : Bool)
      → xmltraverse_thin check_node n (record { ids = ids; saved = sv; ok = ok })
        ≡ record { ids = ids; saved = sv; ok = ok && not (conflicts n ids) }
  check_nodes (node t a cs) ids sv ok =
      ap (check_id (Xml.get (node t a cs) (codes "id"))) (check_children cs ids sv ok)
      ∙ check_id_lem (Xml.get (node t a cs) (codes "id")) ids sv _
      ∙ ground arith

  check_children :
      (cs : Nodes) (ids : List Text) (sv : List (List Text)) (ok : Bool)
      → xmltraverse_thin_children check_node cs (record { ids = ids; saved = sv; ok = ok })
        ≡ record { ids = ids; saved = sv; ok = ok && not (conflicts_children cs ids) }
  check_children nil ids sv ok = ground arith
  check_children (cons c cs) ids sv ok = ground (
    arith,
    check_nodes c ids sv ok,
    check_children cs ids sv ok,
    check_children cs ids sv (ok && not (conflicts c ids)),
  )

taken-false :
    (o : Option Text) (ids : List Text) (j : Text)
    → taken o ids ≡ false
    → names o j ≡ true
    → contains ids j ≡ false
taken-false none ids j h m = cc
taken-false (some []) ids j h m = cc
taken-false (some (c ∷ i)) ids j h m = rw (← (same_iff (c ∷ i) j).0 m) h

-- An id that the tree mentions and that is in `ids`.
abbrev pub Clash : (Text → Bool) → List Text → Type 0
Clash m ids = (j : Text) × (m j ≡ true) × (contains ids j ≡ true)

taken-true : (o : Option Text) (ids : List Text) → taken o ids ≡ true → Clash (names o) ids
taken-true none ids h = cc
taken-true (some []) ids h = cc
taken-true (some (c ∷ i)) ids h = (c ∷ i, same_refl (c ∷ i), h)

mutual
  unfolding conflicts mentions

  pub conflicts-false :
      (n : Node) (ids : List Text) (j : Text)
      → conflicts n ids ≡ false
      → mentions n j ≡ true
      → contains ids j ≡ false
  conflicts-false (node t a cs) ids j h m = ground (
    arith,
    conflicts_children-false cs ids j,
    taken-false (Xml.get (node t a cs) (codes "id")) ids j,
  )

  conflicts_children-false :
      (cs : Nodes) (ids : List Text) (j : Text)
      → conflicts_children cs ids ≡ false
      → mentions_children cs j ≡ true
      → contains ids j ≡ false
  conflicts_children-false nil ids j h m = cc
  conflicts_children-false (cons c cs) ids j h m =
      ground (arith, conflicts_children-false cs ids j, conflicts-false c ids j)

mutual
  unfolding conflicts mentions

  pub conflicts-true :
      (n : Node) (ids : List Text) → conflicts n ids ≡ true → Clash (mentions n) ids
  conflicts-true (node t a cs) ids h = elim (Bool-cases (conflicts_children cs ids)) [
    | inl e ↦ let (j, m, u) = conflicts_children-true cs ids e in (j, rw m, u)
    | inr e ↦
        let (j, m, u) = taken-true (Xml.get (node t a cs) (codes "id")) ids (rw e at h) in
        (j, ground arith, u)
  ]

  conflicts_children-true :
      (cs : Nodes) (ids : List Text)
      → conflicts_children cs ids ≡ true
      → Clash (mentions_children cs) ids
  conflicts_children-true nil ids h = cc
  conflicts_children-true (cons c cs) ids h = elim (Bool-cases (conflicts_children cs ids)) [
    | inl e ↦ let (j, m, u) = conflicts_children-true cs ids e in (j, ground arith, u)
    | inr e ↦ elim (Bool-cases (is_resource c)) [
      | inl r ↦ absurd (ground arith)
      | inr r ↦ let (j, m, u) = conflicts-true c ids (ground arith) in (j, ground arith, u)
    ]
  ]
