-- ===== src/Status/Section.antt =====
-- The status section of the CIB, and what crmsh/cibstatus.py looks up in it.
use crmsh.Prelude.{
  Bool, false, ◌&&◌, ◌||◌, not, Option, none, some, List, [], ◌∷◌, ◌++◌, if◌then◌else◌, Text, codes,
  same, strip_prefix,
}

-- `lrm_rsc_op`, `lrm_resource` and `node_state`, as far as they are looked at.
pub record Op : Type 0 where
  pub operation : Text
  pub interval : Option Text

pub record Rsc : Type 0 where
  pub rsc_id : Text
  pub ops : List Op

pub record NodeState : Type 0 where
  pub node_id : Text
  pub resources : List Rsc

abbrev pub Section : Type 0
Section = List NodeState

-- `get_tag_by_id(status_node, "node_state", node) is not None`
unfoldable pub has_node : Text → Section → Bool
has_node node [] = false
has_node node (n ∷ section) = same n.node_id node || has_node node section

unfoldable pub is_interval : Text → Option Text → Bool
is_interval interval none = same interval (codes "-1")
is_interval interval (some iv) =
    same iv interval || (same interval (codes "-1") && not (same iv (codes "0")))

-- `get_status_ops`: the operations that match, each with the node that it stands under.
unfoldable pub ops_of : Text → Text → Text → List Op → List (Text × Op)
unfolding is_interval
ops_of op interval node [] = []
ops_of op interval node (o ∷ ops) =
    let rest = ops_of op interval node ops in
    if same o.operation op && is_interval interval o.interval then (node, o) ∷ rest else rest

unfoldable pub resources_of : Text → Text → Text → Text → List Rsc → List (Text × Op)
unfolding ops_of
resources_of rsc op interval node [] = []
resources_of rsc op interval node (r ∷ resources) =
    let rest = resources_of rsc op interval node resources in
    if same r.rsc_id rsc then ops_of op interval node r.ops ++ rest else rest

unfoldable pub get_status_ops : Section → Text → Text → Text → Text → List (Text × Op)
unfolding resources_of
get_status_ops [] rsc op interval node = []
get_status_ops (n ∷ section) rsc op interval node =
    let rest = get_status_ops section rsc op interval node in
    if same n.node_id node then resources_of rsc op interval n.node_id n.resources ++ rest else rest

-- `split_op`
unfoldable pub split_op : Text → Text × Text
unfolding strip_prefix
split_op op =
    if same op (codes "probe")
    then (codes "monitor", codes "0")
    else if same op (codes "monitor")
    then (codes "monitor", codes "-1")
    else (elim (strip_prefix (codes "monitor:") op) [
      | some interval ↦ (codes "monitor", interval)
      | none ↦ (op, codes "0")
    ])
