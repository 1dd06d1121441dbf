-- ===== src/Status/Editing.antt =====
-- `CibStatus` of crmsh/cibstatus.py: the status section that is edited, and the changes made.
use crmsh.Prelude.{
  Bool, true, false, ◌&&◌, ◌||◌, not, Option, none, some, List, [], ◌∷◌, ◌++◌, ◌==◌, if◌then◌else◌,
  Text, codes, same, is_empty, length,
}
use crmsh.Status.Section.{Op, Section, has_node, get_status_ops, split_op}

abbrev pub Changes : Type 0
Changes = List (Text × Text)

-- `backed` is `backing_file`, which is there or not; `commands` are the options of the calls of
-- crm_simulate, in their order.
pub record CibStatus : Type 0 where
  pub origin : Text
  pub backed : Bool
  pub status_node : Option Section
  pub modified : Bool
  pub quorum : Text
  pub node_changes : Changes
  pub op_changes : Changes
  pub ticket_changes : Changes
  pub commands : List Text

-- What is read where a CIB is loaded: whether the live one could be dumped, and its status section.
pub record Loading : Type 0 where
  pub dumped : Bool
  pub section : Option Section

-- What happens around one edit: the shadow CIB in use, what is read before and after, and whether
-- crm_simulate succeeds.
pub record Env : Type 0 where
  pub cib_in_use : Text
  pub first : Loading
  pub before : Loading
  pub after : Loading
  pub injected : Bool

abbrev pub live : Text
live = codes "live"

unfoldable pub reset_state : CibStatus → CibStatus
reset_state st = record st {
  modified = false;
  quorum = [];
  node_changes = [];
  op_changes = [];
  ticket_changes = [];
}

-- `_load_cib`
unfoldable pub load_cib : Text → Loading → CibStatus → Option Section × CibStatus
load_cib source a st =
    if same source live && not st.backed
    then (if a.dumped then (a.section, record st { backed = true }) else (none, st))
    else (a.section, st)

-- `_load`
unfoldable pub load : Text → Loading → CibStatus → Bool × CibStatus
unfolding load_cib reset_state
load source a st =
    let (found, st') = load_cib source a st in
    elim found [
      | none ↦ (false, st')
      | some s ↦ (true, reset_state (record st' { status_node = some s }))
    ]

unfoldable pub initialize : Env → CibStatus → CibStatus
unfolding load
initialize env st =
    let src = if is_empty env.cib_in_use then live else codes "shadow:" ++ env.cib_in_use in
    let (loaded, st') = load src env.first st in if loaded then record st' { origin = src } else st'

abbrev pub ready : Env → CibStatus → CibStatus
ready env st = if is_empty st.origin then initialize env st else st

abbrev pub is_absent : Option Section → Bool
is_absent none = true
is_absent (some s) = false

unfoldable pub get_status : Env → CibStatus → Option Section × CibStatus
unfolding initialize load
get_status env st0 =
    let st = ready env st0 in
    if is_absent st.status_node || (same st.origin live && not st.modified)
    then (let (loaded, st') = load st.origin env.before st in
        if loaded then (st'.status_node, st') else (none, st'))
    else (st.status_node, st)

-- A change in a dict.
unfoldable pub put_change : Text → Text → Changes → Changes
put_change k v [] = (k, v) ∷ []
put_change k v ((k', v') ∷ d) =
    let rest = put_change k v d in if same k' k then (k', v) ∷ d else (k', v') ∷ rest

abbrev pub noted : Text → CibStatus → CibStatus
noted command st = record st { commands = st.commands ++ command ∷ [] }

-- `inject` and what follows it in each edit: the section is loaded again, and the change is noted before
-- that or after it.
unfoldable pub inject :
    Env → Text → (CibStatus → CibStatus) → (CibStatus → CibStatus) → CibStatus → Bool × CibStatus
unfolding load
inject env command note_before note_after st =
    if env.injected
    then (let st' = (load st.origin env.after (note_before (noted command st))).1 in
        (true, record (note_after st') { modified = true }))
    else (false, noted command st)

abbrev pub unchanged : CibStatus → CibStatus
unchanged st = st

abbrev pub truth : Bool → Text
truth true = codes "true"
truth false = codes "false"

unfoldable pub set_quorum : Env → Bool → CibStatus → Bool × CibStatus
unfolding initialize inject
set_quorum env v st =
    inject env (codes "--quorum=" ++ truth v) unchanged (λ s. record s { quorum = truth v })
      (ready env st)

-- The option for a state of a node, and for a command on a ticket.
unfoldable pub node_ops : Text → Option Text
node_ops state =
    if same state (codes "online")
    then some (codes "-u")
    else if same state (codes "offline")
    then some (codes "-d")
    else if same state (codes "unclean")
    then some (codes "-f")
    else none

unfoldable pub ticket_ops : Text → Option Text
ticket_ops subcmd =
    if same subcmd (codes "grant")
    then some (codes "-g")
    else if same subcmd (codes "revoke")
    then some (codes "-r")
    else if same subcmd (codes "standby")
    then some (codes "-b")
    else if same subcmd (codes "activate")
    then some (codes "-e")
    else none

unfoldable pub edit_node : Env → Text → Text → CibStatus → Bool × CibStatus
unfolding get_status node_ops has_node put_change inject
edit_node env node state st0 =
    let (found, st) = get_status env st0 in
    elim found [
      | none ↦ (false, st)
      | some s ↦ (elim (node_ops state) [
        | none ↦ (false, st)
        | some option ↦
            if has_node node s
            then inject env (option ++ codes " " ++ node) unchanged
                (λ t. record t { node_changes = put_change node state t.node_changes }) st
            else (false, st)
      ])
    ]

unfoldable pub edit_ticket : Env → Text → Text → CibStatus → Bool × CibStatus
unfolding get_status ticket_ops put_change inject
edit_ticket env ticket subcmd st0 =
    let (found, st) = get_status env st0 in
    elim found [
      | none ↦ (false, st)
      | some s ↦ (elim (ticket_ops subcmd) [
        | none ↦ (false, st)
        | some option ↦
            inject env (option ++ codes " " ++ ticket) unchanged
              (λ t. record t { ticket_changes = put_change ticket subcmd t.ticket_changes }) st
      ])
    ]

-- The operation that was found, if there is exactly one, gives the node and the interval that are missing.
abbrev pub the_op : List (Text × Op) → Option (Text × Op)
the_op [] = none
the_op (o ∷ []) = some o
the_op (o ∷ o' ∷ ops) = none

abbrev pub node_of : Text → Option (Text × Op) → Text
node_of node none = node
node_of node (some (id, o)) = if is_empty node then id else node

abbrev pub shown_interval : Option Text → Text
shown_interval none = codes "None"
shown_interval (some iv) = iv

abbrev pub interval_of : Text → Option (Text × Op) → Text
interval_of l_int none = l_int
interval_of l_int (some (id, o)) =
    if same l_int (codes "-1") then shown_interval o.interval else l_int

abbrev pub op_option : Option Text → Text
op_option none = codes "-F"
op_option (some s) = if same s (codes "0") then codes "-i" else codes "-F"

abbrev pub op_change : Text → Option Text → Text
op_change rc_code none = codes "rc=" ++ rc_code
op_change rc_code (some s) =
    codes "rc=" ++ rc_code ++ (if is_empty s then [] else codes ",op-status=" ++ s)

unfoldable pub inject_op :
    Env → Text → Text → Text → Option Text → Text → Text → Text → CibStatus → Bool × CibStatus
unfolding put_change inject
inject_op env op rsc rc_code op_status node l_op l_int st =
    let key = node ++ codes ":" ++ rsc ++ codes ":" ++ op in
    inject env
      (op_option op_status
        ++ codes " "
        ++ rsc
        ++ codes "_"
        ++ l_op
        ++ codes "_"
        ++ l_int
        ++ codes "@"
        ++ node
        ++ codes "="
        ++ rc_code)
      (λ t. record t { op_changes = put_change key (op_change rc_code op_status) t.op_changes })
      unchanged st

-- `edit_op` once the status section is there.
unfoldable pub edit_op_in :
    Env → Text → Text → Text → Option Text → Text → Section → CibStatus → Bool × CibStatus
unfolding get_status_ops split_op inject_op
edit_op_in env op rsc rc_code op_status node s st =
    let (l_op, l_int) = split_op op in
    let ops = get_status_ops s rsc l_op l_int node in
    let one = length ops == 1 in
    if (same l_int (codes "-1") && not one) || (is_empty node && not one)
    then (false, st)
    else if one && is_empty (node_of node (the_op ops))
    then (false, st)
    else inject_op env op rsc rc_code op_status (node_of node (the_op ops)) l_op
        (interval_of l_int (the_op ops)) st

unfoldable pub edit_op :
    Env → Text → Text → Text → Option Text → Text → CibStatus → Bool × CibStatus
unfolding get_status edit_op_in
edit_op env op rsc rc_code op_status node st0 =
    let (found, st) = get_status env st0 in
    elim found [ none ↦ (false, st) | some s ↦ edit_op_in env op rsc rc_code op_status node s st ]

-- `list_changes`: the lines that it prints.
unfoldable pub lines_of : Changes → List Text
lines_of [] = []
lines_of ((k, v) ∷ d) = (k ++ codes " " ++ v) ∷ lines_of d

unfoldable pub list_changes : CibStatus → List Text
unfolding lines_of
list_changes st =
    if st.modified
    then lines_of st.node_changes
      ++ lines_of st.op_changes
      ++ lines_of st.ticket_changes
      ++ (if is_empty st.quorum then [] else (codes "quorum: " ++ st.quorum) ∷ [])
    else []
