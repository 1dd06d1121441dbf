-- ===== src/IdMgmt/New.antt =====
-- `new`, `_gen_free_id` and `set_id` of crmsh/idmgmt.py.
use crmsh.Prelude.{
  ℕ, zero, suc, ◌+◌, Bool, true, false, not, ◌&&◌, ◌||◌, Option, none, some, [], ◌∷◌, ◌++◌, ◌==◌,
  ◌≡◌, refl, if◌then◌else◌, Text, codes, same, is_empty, is_digit, replace_char, truthy, or_else,
  str,
}
use crmsh.Xml
use crmsh.Xml.{Node, node, Attributes, get_attribute}
use crmsh.IdMgmt.Store.{Store, is_used, save}

-- `"%s" % value`, for a string or `None`.
abbrev pub shown : Option Text → Text
shown none = codes "None"
shown (some s) = s

-- `"%s-%s" % (s, t)`
abbrev pub dashed : Text → Text → Text
dashed s t = s ++ b'-' ∷ t

digits_line : Text → Bool
digits_line [] = true
digits_line (c ∷ s) = (c == b'\n' && is_empty s) || (is_digit c && digits_line s)

-- `re.search(r'^\d+$', pfx)`: `$` stands before a last newline too.
unfoldable pub is_number : Text → Bool
unfolding digits_line is_digit
is_number [] = false
is_number (c ∷ s) = is_digit c && digits_line s

-- `constants.subpfx_list`
abbrev pub subpfx_list : Attributes
subpfx_list =
    (codes "instance_attributes", codes "instance_attributes")
    ∷ (codes "meta_attributes", codes "meta_attributes")
    ∷ (codes "utilization", codes "utilization")
    ∷ (codes "operations", codes "ops")
    ∷ (codes "rule", codes "rule")
    ∷ (codes "expression", codes "expression")
    ∷ (codes "date_expression", codes "expression")
    ∷ (codes "duration", codes "duration")
    ∷ (codes "date_spec", codes "date_spec")
    ∷ (codes "read", codes "read")
    ∷ (codes "write", codes "write")
    ∷ (codes "deny", codes "deny")
    ∷ []

-- The id that the tag and the attributes suggest, before it is made unique.
unfoldable pub proposed_id : Node → Text → Text
unfolding is_number get_attribute same
proposed_id n pfx0 =
    let pfx =
      if is_number pfx0 && not (same (Xml.tag n) (codes "node"))
      then codes "num-" ++ pfx0
      else pfx0 in
    let name = shown (Xml.get n (codes "name")) in
    let interval = Xml.get n (codes "interval") in
    let subpfx = get_attribute (Xml.tag n) subpfx_list in
    if same (Xml.tag n) (codes "nvpair")
    then dashed pfx name
    else if same (Xml.tag n) (codes "op")
    then (if truthy interval then dashed (dashed pfx name) (shown interval) else dashed pfx name)
    else if truthy subpfx
    then dashed pfx (shown subpfx)
    else pfx

-- The loop of `_gen_free_id`, with `rounds` left, at `cnt`.
unfoldable pub try_ids : ℕ → ℕ → Text → Store → Text
try_ids zero cnt node_id s = node_id
try_ids (suc rounds) cnt node_id s =
    let try_id = dashed node_id (str cnt) in
    let later = try_ids rounds (cnt + 1) node_id s in
    if not (is_used try_id s) then try_id else later

unfoldable pub gen_free_id : Text → Store → Text
gen_free_id node_id s = try_ids 99 0 node_id s

unfoldable pub new : Node → Text → Store → Text × Store
new n pfx s =
    let proposed = proposed_id n pfx in
    let free = gen_free_id proposed s in
    let node_id = replace_char b'#' b'.' (if is_used proposed s then free else proposed) in
    (node_id, save (some node_id) s)

-- What `set_id` leaves: the node, the old node if there is one, and the store.
pub record Placed : Type 0 where
  pub placed : Node
  pub old : Option Node
  pub store : Store

abbrev pub old_id_of : Option Node → Option Text
old_id_of none = none
old_id_of (some n) = Xml.get n (codes "id")

abbrev pub same_id : Option Text → Text → Bool
same_id none j = false
same_id (some i) j = same i j

-- The mark on the old node when its id was kept.
unfoldable pub mark_old : Option Node → Text → Option Node
mark_old none new_id = none
mark_old (some o) new_id = some (
    if same_id (Xml.get o (codes "id")) new_id
    then Xml.set o (codes "__id_used") (codes "Yes")
    else o)

-- The end of `set_id`, with the id that was found or made.
unfoldable pub place : Node → Option Node → Text → Store → Placed
place n oldnode [] s = record { placed = n; old = oldnode; store = s }
place n oldnode (c ∷ i) s = record {
  placed = Xml.set n (codes "id") (c ∷ i);
  old = mark_old oldnode (c ∷ i);
  store = s;
}

unfoldable pub set_id : Node → Option Node → Text → Bool → Store → Placed
set_id n oldnode id_hint id_required s =
    let given =
      or_else (or_else (Xml.get n (codes "id")) (old_id_of oldnode)) (Xml.get n (codes "uname")) in
    if truthy given
    then place n oldnode (shown given) (save given s)
    else if id_required
    then (let (made, s') = new n id_hint s in place n oldnode made s')
    else record { placed = n; old = oldnode; store = s }

new_op_id :
    proposed_id
      (node
        (codes "op")
        ((codes "name", codes "monitor") ∷ (codes "interval", codes "10s") ∷ [])
        Xml.nil)
      (codes "vip")
    ≡ codes "vip-monitor-10s"
unfolding proposed_id truthy
new_op_id = refl
