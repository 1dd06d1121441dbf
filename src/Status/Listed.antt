-- ===== src/Status/Listed.antt =====
-- Which changes of the status section `CibStatus` lists, and when it refuses an operation.
use crmsh.Prelude.{
  Bool, true, false, ◌&&◌, ◌||◌, not, Option, none, some, List, [], ◌∷◌, ◌++◌, if◌then◌else◌, ◌≡◌,
  refl, sym, ap, ◌∙◌, subst, arith, Text, codes, same, is_empty, Bool-cases, Option-cases, inl, inr,
}
use crmsh.Status.Section.{Section, has_node, get_status_ops, split_op}
use crmsh.Status.Editing.{
  CibStatus, Loading, Env, reset_state, load_cib, load, ready, get_status, put_change, noted,
  inject, unchanged, truth, set_quorum, node_ops, ticket_ops, edit_node, edit_ticket, edit_op_in,
  op_option, op_change, inject_op, edit_op, lines_of, list_changes,
}

-- One of the edits.
pub data Edit : Type 0 where
  quorum_edit : Bool → Edit
  node_edit : Text → Text → Edit
  ticket_edit : Text → Text → Edit
  op_edit : Text → Text → Text → Option Text → Text → Edit

unfoldable pub run_edit : Env → Edit → CibStatus → Bool × CibStatus
unfolding set_quorum edit_node edit_ticket edit_op
run_edit env (quorum_edit v) st = set_quorum env v st
run_edit env (node_edit node state) st = edit_node env node state st
run_edit env (ticket_edit ticket subcmd) st = edit_ticket env ticket subcmd st
run_edit env (op_edit op rsc rc_code op_status node) st =
    edit_op env op rsc rc_code op_status node st

-- The lines for an edit. There are none for an operation.
unfoldable pub shown : Edit → List Text
shown (quorum_edit v) = (codes "quorum: " ++ truth v) ∷ []
shown (node_edit node state) = (node ++ codes " " ++ state) ∷ []
shown (ticket_edit ticket subcmd) = (ticket ++ codes " " ++ subcmd) ∷ []
shown (op_edit op rsc rc_code op_status node) = []

false_true :
    (P : Type 0) (st st' : CibStatus) → ◌≡◌ {A = Bool × CibStatus} (false, st) (true, st') → P
false_true P st st' e = (let q = ap (λ z. z.0) e in grind arith)

option_then :
    {A : Type 0} (o : Option A) (st st' : CibStatus) (k : A → Bool × CibStatus)
    → (elim o as (λ _. Bool × CibStatus) [ none ↦ (false, st) | some a ↦ k a ]) ≡ (true, st')
    → (a : A) × (k a ≡ (true, st'))
option_then none st st' k e = false_true _ st st' e
option_then (some a) st st' k e = (a, e)

if_then :
    (b : Bool) (x : Bool × CibStatus) (st st' : CibStatus)
    → (if b then x else (false, st)) ≡ (true, st')
    → x ≡ (true, st')
if_then true x st st' e = e
if_then false x st st' e = false_true _ st st' e

if_else :
    (b : Bool) (x : Bool × CibStatus) (st st' : CibStatus)
    → (if b then (false, st) else x) ≡ (true, st')
    → x ≡ (true, st')
if_else true x st st' e = false_true _ st st' e
if_else false x st st' e = e

load_cib_found :
    (source : Text) (a : Loading) (s : Section) (st : CibStatus)
    → a.dumped ≡ true
    → a.section ≡ some s
    → (load_cib source a st).0 ≡ some s
unfolding load_cib
load_cib_found source a s st d e = elim (Bool-cases (same source (codes "live") && not st.backed)) [
  | inl c ↦ rw c (rw d e)
  | inr c ↦ rw c e
]

load_lem :
    (source : Text) (a : Loading) (s : Section) (st : CibStatus)
    → a.dumped ≡ true
    → a.section ≡ some s
    → (st1 : CibStatus) × ((load source a st).1 ≡ reset_state st1)
unfolding load
load_lem source a s st d e = (
  record ((load_cib source a st).1) { status_node = some s },
  rw (load_cib_found source a s st d e, load) refl,
)

inject_lem :
    (env : Env) (command : Text) (before after : CibStatus → CibStatus) (s : Section)
    (st st' : CibStatus)
    → env.after.dumped ≡ true
    → env.after.section ≡ some s
    → inject env command before after st ≡ (true, st')
    → (st1 : CibStatus) × (st' ≡ record (after (reset_state st1)) { modified = true })
unfolding inject
inject_lem env command before after s st st' d e h =
    let h1 = if_then env.injected _ (noted command st) st' h in
    let (st1, q) = load_lem st.origin env.after s (before (noted command st)) d e in
    (st1, sym (ap (λ z. z.1) h1) ∙ ap (λ z. record (after z) { modified = true }) q)

quorum_lines :
    (v : Bool)
    → (if is_empty (truth v) then [] else (codes "quorum: " ++ truth v) ∷ [])
      ≡ (codes "quorum: " ++ truth v) ∷ []
quorum_lines true = refl
quorum_lines false = refl

list_changes-inject_op :
    (env : Env) (op rsc rc_code : Text) (op_status : Option Text) (node l_op l_int : Text)
    (s : Section) (st st' : CibStatus)
    → env.after.dumped ≡ true
    → env.after.section ≡ some s
    → inject_op env op rsc rc_code op_status node l_op l_int st ≡ (true, st')
    → list_changes st' ≡ []
unfolding inject_op list_changes lines_of reset_state
list_changes-inject_op env op rsc rc_code op_status node l_op l_int s st st' d l h =
    let (st1, q) =
      inject_lem env
        (op_option op_status
          ++ codes " "
          ++ rsc
          ++ codes "_"
          ++ l_op
          ++ codes "_"
          ++ l_int
          ++ codes "@"
          ++ node
          ++ codes "="
          ++ rc_code)
        (λ t. record t {
          op_changes =
              put_change (node ++ codes ":" ++ rsc ++ codes ":" ++ op) (op_change rc_code op_status)
                t.op_changes;
        })
        unchanged s st st' d l h in
    ap list_changes q

list_changes-edit_op_in :
    (env : Env) (op rsc rc_code : Text) (op_status : Option Text) (node : Text) (s found : Section)
    (st st' : CibStatus)
    → env.after.dumped ≡ true
    → env.after.section ≡ some s
    → edit_op_in env op rsc rc_code op_status node found st ≡ (true, st')
    → list_changes st' ≡ []
unfolding edit_op_in
list_changes-edit_op_in env op rsc rc_code op_status node s found st st' d l h =
    let h1 = if_else _ _ st st' h in
    let h2 = if_else _ _ st st' h1 in
    list_changes-inject_op env op rsc rc_code op_status _ _ _ s st st' d l h2

-- After an edit that returns true, where the status section can be loaded again, `list_changes` prints
-- the last edit and no earlier one; where the last edit is of an operation, it prints nothing.
pub list_changes-run_edit :
    (env : Env) (e : Edit) (s : Section) (st st' : CibStatus)
    → env.after.dumped ≡ true
    → env.after.section ≡ some s
    → run_edit env e st ≡ (true, st')
    → list_changes st' ≡ shown e
unfolding run_edit shown list_changes lines_of set_quorum edit_node edit_ticket edit_op reset_state
    put_change
list_changes-run_edit env (quorum_edit v) s st st' d l h =
    let (st1, q) =
      inject_lem env _ unchanged (λ t. record t { quorum = truth v }) s (ready env st) st' d l h in
    ap list_changes q ∙ quorum_lines v
list_changes-run_edit env (node_edit node state) s st st' d l h =
    let g = get_status env st in
    let (found, h1) = option_then g.0 g.1 st' _ h in
    let (option, h2) = option_then (node_ops state) g.1 st' _ h1 in
    let h3 = if_then (has_node node found) _ g.1 st' h2 in
    let (st1, q) =
      inject_lem env _ unchanged
        (λ t. record t { node_changes = put_change node state t.node_changes }) s g.1 st' d l h3 in
    ap list_changes q
list_changes-run_edit env (ticket_edit ticket subcmd) s st st' d l h =
    let g = get_status env st in
    let (found, h1) = option_then g.0 g.1 st' _ h in
    let (option, h2) = option_then (ticket_ops subcmd) g.1 st' _ h1 in
    let (st1, q) =
      inject_lem env _ unchanged
        (λ t. record t { ticket_changes = put_change ticket subcmd t.ticket_changes }) s g.1 st' d l
        h2 in
    ap list_changes q
list_changes-run_edit env (op_edit op rsc rc_code op_status node) s st st' d l h =
    let g = get_status env st in
    let (found, h1) = option_then g.0 g.1 st' _ h in
    list_changes-edit_op_in env op rsc rc_code op_status node s found g.1 st' d l h1

no_ops :
    (rsc op interval : Text) (section : Section)
    → has_node [] section ≡ false
    → get_status_ops section rsc op interval [] ≡ []
unfolding has_node get_status_ops
no_ops rsc op interval [] n = refl
no_ops rsc op interval (x ∷ section) n = elim (Bool-cases (same x.node_id [])) [
  | inl e ↦ grind arith
  | inr e ↦
      rw e (no_ops rsc op interval section (subst (λ b. b || has_node [] section ≡ false) e n))
]

refused : (b : Bool) (x y : Bool × CibStatus) → (if (b && true) || true then x else y) ≡ x
refused true x y = refl
refused false x y = refl

edit_op_in-no_node :
    (env : Env) (op rsc rc_code : Text) (op_status : Option Text) (s : Section) (st : CibStatus)
    → has_node [] s ≡ false
    → edit_op_in env op rsc rc_code op_status [] s st ≡ (false, st)
unfolding edit_op_in
edit_op_in-no_node env op rsc rc_code op_status s st n =
    rw (no_ops rsc (split_op op).0 (split_op op).1 s n, edit_op_in)
      (refused (same (split_op op).1 (codes "-1")) _ _)

-- Without a node `edit_op` returns false and gives no command, whatever the operation, where no node of
-- the status section has the empty name.
pub edit_op-no_node :
    (env : Env) (op rsc rc_code : Text) (op_status : Option Text) (st : CibStatus)
    → ((s : Section) → (get_status env st).0 ≡ some s → has_node [] s ≡ false)
    → edit_op env op rsc rc_code op_status [] st ≡ (false, (get_status env st).1)
unfolding edit_op
edit_op-no_node env op rsc rc_code op_status st n = elim (Option-cases (get_status env st).0) [
  | inl e ↦ rw (e, edit_op) refl
  | inr (s, e) ↦
      rw (e, edit_op)
        (edit_op_in-no_node env op rsc rc_code op_status s (get_status env st).1 (n s e))
]
