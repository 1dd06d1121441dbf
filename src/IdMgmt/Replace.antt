-- ===== src/IdMgmt/Replace.antt =====
-- What `store_xml` and `replace_xml` of crmsh/idmgmt.py do to the set of ids in use.
use crmsh.Prelude.{
  ◌≡◌, ap, Bool, true, false, not, ◌&&◌, ◌||◌, arith, ◌⊎◌, inl, inr, Bool-cases, Text,
}
use crmsh.Xml.{Node, xmltraverse_thin}
use crmsh.IdMgmt.Store.{
  Store, contains, is_used, store_node, check_xml, store_xml, remove_xml, replace_xml,
}
use crmsh.IdMgmt.Trees.{
  mentions, conflicts, Clash, is_used-store_nodes, is_used-drop_nodes, check_nodes, conflicts-false,
  conflicts-true,
}

-- The tree was stored: nothing it mentions was in use, and now all of it is.
pub record Stored (n : Node) (s : Store) (r : Bool × Store) : Type 0 where
  pub result : r.0 ≡ true
  pub was_free : (j : Text) → (mentions n j && is_used j s) ≡ false
  pub now_used : (j : Text) → is_used j r.1 ≡ (is_used j s || mentions n j)

-- The tree was refused: it mentions an id in use, and the ids are what they were.
pub record Refused (n : Node) (s : Store) (r : Bool × Store) : Type 0 where
  pub result : r.0 ≡ false
  pub clash : Clash (mentions n) s.ids
  pub kept : r.1.ids ≡ s.ids

check_xml_lem :
    (n : Node) (s : Store)
    → check_xml n s ≡ (not (conflicts n s.ids), record s { ok = not (conflicts n s.ids) })
unfolding check_xml
check_xml_lem n s = rw (check_nodes n s.ids s.saved true)

store_xml-conflict :
    (n : Node) (thin : Bool) (s : Store)
    → conflicts n s.ids ≡ true
    → store_xml n thin s ≡ (false, record s { ok = false })
unfolding store_xml
store_xml-conflict n thin s h = rw (check_xml_lem n s) (rw h)

store_xml-free :
    (n : Node) (s : Store)
    → conflicts n s.ids ≡ false
    → store_xml n true s ≡ (true, xmltraverse_thin store_node n (record s { ok = true }))
unfolding store_xml
store_xml-free n s h = rw (check_xml_lem n s) (rw h)

-- `store_xml` stores a tree exactly when none of the ids that it mentions is in use, and then they
-- all are and no other id changes. Otherwise it returns false and leaves the ids as they were.
pub store_xml_lem :
    (n : Node) (s : Store) → Stored n s (store_xml n true s) ⊎ Refused n s (store_xml n true s)
unfolding is_used
store_xml_lem n s = elim (Bool-cases (conflicts n s.ids)) [
  | inl clash ↦ inr (record {
    result = rw (store_xml-conflict n true s clash);
    clash = conflicts-true n s.ids clash;
    kept = rw (store_xml-conflict n true s clash);
  })
  | inr free ↦ inl (record {
    result = rw (store_xml-free n s free);
    was_free = λ j. ground (arith, conflicts-false n s.ids j free);
    now_used = λ j. rw (store_xml-free n s free) (is_used-store_nodes n (record s { ok = true }) j);
  })
]

is_used-remove_xml :
    (n : Node) (s : Store) (j : Text)
    → is_used j (remove_xml n s) ≡ (is_used j s && not (mentions n j))
unfolding remove_xml
is_used-remove_xml n s j = is_used-drop_nodes n s j

-- The old tree's ids are free once they are removed, so it can be stored again.
store_back :
    (n : Node) (s s' : Store)
    → s'.ids ≡ (remove_xml n s).ids
    → ((j : Text) → mentions n j ≡ true → is_used j s ≡ true)
    → (j : Text) → is_used j (store_xml n true s').1 ≡ is_used j s
unfolding is_used
store_back n s s' e old j = elim (store_xml_lem n s') [
  | inl stored ↦
      ground
        (arith, stored.now_used j, is_used-remove_xml n s j, ap (λ ids. contains ids j) e, old j)
  | inr refused ↦
      let (i, m, u) = refused.clash in
      absurd (ground (arith, is_used-remove_xml n s i, ap (λ ids. contains ids i) e))
]

-- `replace_xml` succeeded: nothing that the new tree mentions was in use by something else, and the old
-- tree's ids are free, but for those that the new one mentions.
pub record Replaced (old new : Node) (s : Store) (r : Bool × Store) : Type 0 where
  pub result : r.0 ≡ true
  pub was_free : (j : Text) → (mentions new j && (is_used j s && not (mentions old j))) ≡ false
  pub now_used :
      (j : Text) → is_used j r.1 ≡ ((is_used j s && not (mentions old j)) || mentions new j)

-- `replace_xml` failed: the new tree mentions an id of some other tree, and nothing has changed.
pub record Restored (old new : Node) (s : Store) (r : Bool × Store) : Type 0 where
  pub result : r.0 ≡ false
  pub clash : (j : Text) × (mentions new j ≡ true) × (is_used j s ≡ true) × (mentions old j ≡ false)
  pub as_before : (j : Text) → is_used j r.1 ≡ is_used j s

-- When all ids of the old tree are in use, `replace_xml` succeeds exactly when the new tree mentions no
-- id that something else uses, and then puts the new tree's ids in the place of the old one's.
-- Otherwise it fails and leaves the ids in use as they were.
pub replace_xml_lem :
    (old new : Node) (s : Store)
    → ((j : Text) → mentions old j ≡ true → is_used j s ≡ true)
    → Replaced old new s (replace_xml old new s) ⊎ Restored old new s (replace_xml old new s)
unfolding replace_xml is_used
replace_xml_lem old new s known = elim (store_xml_lem new (remove_xml old s)) [
  | inl stored ↦ inl (record {
    result = rw stored.result;
    was_free = λ j. ground (arith, stored.was_free j, is_used-remove_xml old s j);
    now_used =
        λ j. rw stored.result (ground (arith, stored.now_used j, is_used-remove_xml old s j));
  })
  | inr refused ↦
      let (i, m, u) = refused.clash in
      inr (record {
        result = rw refused.result;
        clash = (
          i,
          m,
          ground (arith, is_used-remove_xml old s i),
          ground (arith, is_used-remove_xml old s i),
        );
        as_before = λ j. rw refused.result (store_back old s _ refused.kept known j);
      })
]
