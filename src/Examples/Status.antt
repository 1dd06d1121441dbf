-- ===== src/Examples/Status.antt =====
-- Runs of the edits of the status section.
use crmsh.Prelude.{Bool, true, false, Option, none, some, [], ◌∷◌, ◌≡◌, refl, subst, codes, same}
use crmsh.Status.Section.{Section, has_node}
use crmsh.Status.Editing.{CibStatus, Loading, Env, get_status, edit_op, list_changes}
use crmsh.Status.Listed.{
  node_edit, op_edit, run_edit, shown, list_changes-run_edit, edit_op-no_node,
}

abbrev section : Section
section =
    record {
      node_id = codes "n1";
      resources =
          record {
            rsc_id = codes "p";
            ops = record { operation = codes "monitor"; interval = some (codes "10") } ∷ [];
          }
          ∷ [];
    }
    ∷ []

abbrev loading : Loading
loading = record { dumped = true; section = some section }

abbrev env : Env
env = record {
  cib_in_use = [];
  first = loading;
  before = loading;
  after = loading;
  injected = true;
}

abbrev start : CibStatus
start = record {
  origin = [];
  backed = false;
  status_node = none;
  modified = false;
  quorum = [];
  node_changes = [];
  op_changes = [];
  ticket_changes = [];
  commands = [];
}

abbrev node_edited : Bool × CibStatus
node_edited = run_edit env (node_edit (codes "n1") (codes "offline")) start

abbrev op_edited : Bool × CibStatus
op_edited =
    run_edit env (op_edit (codes "monitor") (codes "p") (codes "1") none (codes "n1")) node_edited.1

-- The change of the operation is made, and nothing is listed any more.
op_edited_test : op_edited.1.commands ≡ codes "-d n1" ∷ codes "-F p_monitor_10@n1=1" ∷ []
unfolding run_edit same
op_edited_test = refl

list_changes-run_edit_example : list_changes op_edited.1 ≡ []
unfolding run_edit shown same
list_changes-run_edit_example =
    list_changes-run_edit env (op_edit (codes "monitor") (codes "p") (codes "1") none (codes "n1"))
      section node_edited.1 op_edited.1 refl refl refl

-- Whether a node has the empty name.
abbrev any_unnamed : Option Section → Bool
any_unnamed none = false
any_unnamed (some s) = has_node [] s

nodes_named : (s : Section) → (get_status env start).0 ≡ some s → has_node [] s ≡ false
unfolding get_status has_node same
nodes_named s e = subst (λ z. any_unnamed z ≡ false) e refl

edit_op-no_node_example :
    edit_op env (codes "monitor") (codes "p") (codes "1") none [] start
    ≡ (false, (get_status env start).1)
edit_op-no_node_example =
    edit_op-no_node env (codes "monitor") (codes "p") (codes "1") none start nodes_named
