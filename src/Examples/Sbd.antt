-- ===== src/Examples/Sbd.antt =====
-- The timeouts of a node on s390 whose profile sets a short msgwait, and of a cluster with a disk.
use crmsh.Prelude.{
  arith, ℕ, suc, ◌+◌, ◌*◌, ◌≤◌, ◌≡◌, true, false, not, ◌&&◌, none, some, if◌then◌else◌, Bool, ◌==◌,
  refl, ◌↔◌, codes, strip, lstrip, rstrip, all_digits, is_digit, is_space, [], ◌∷◌, All, Text, ◌⊎◌,
}
use Prim.Native.Nat.{max}
use crmsh.Units.Time.{to_int}
use crmsh.Sbd.Checker.{
  success, error, return_helper, all_success, all_fine, set_at, is_blocked, result_of, Checker,
  returned, recheck, check_and_fix_items, after_check, run_item, and_then, run_items, check_and_fix,
}
use crmsh.Sbd.ReadOnly.{is_fix_failure, with_fixes, check_and_fix-with_fixes}
use crmsh.Sbd.Fixed.{Passed, check_and_fix-Passed}
use crmsh.Sbd.Checks.{
  check_disk_metadata, check_systemd_start_timeout, fix_fencing_watchdog_timeout,
  check_fencing_timeout, fix_fencing_timeout, is_disabled, check_fencing_watchdog_timeout,
  int_is_minus_one, minus_one,
}
use crmsh.Sbd.Mended.{
  check_disk_metadata-success, check_systemd_start_timeout-success,
  check-fix_fencing_watchdog_timeout, check-fix_fencing_timeout,
}
use crmsh.Sbd.Timeout.{Bootstrap, Runtime, get_or, initialize, metadata_expected}
use crmsh.Sbd.Bounds.{initialize-watchdog, initialize-msgwait, metadata_expected_lem}

abbrev mainframe : Bootstrap
mainframe = record {
  profile_watchdog_timeout = some 10;
  profile_msgwait = some 25;
  is_s390 = true;
  diskless_sbd = false;
  qdevice_inst = true;
  qdevice_running = false;
  qdevice_sync_timeout = 0;
}

initialize-watchdog_example :
    (get_or 5 mainframe.profile_watchdog_timeout ≤ (initialize mainframe).0)
    × ((if mainframe.is_s390 then 15 else 0) ≤ (initialize mainframe).0)
    × ((if mainframe.diskless_sbd && mainframe.qdevice_running
          then suc mainframe.qdevice_sync_timeout
          else 0)
        ≤ (initialize mainframe).0)
    × ((if mainframe.diskless_sbd && not mainframe.qdevice_running && mainframe.qdevice_inst
          then 35
          else 0)
        ≤ (initialize mainframe).0)
initialize-watchdog_example = initialize-watchdog mainframe

initialize-msgwait_example : (initialize mainframe).1 ≡ (
    if mainframe.diskless_sbd
    then none
    else some (max (2 * (initialize mainframe).0) (get_or 0 mainframe.profile_msgwait)))
initialize-msgwait_example = initialize-msgwait mainframe

abbrev two_nodes : Runtime
two_nodes = record {
  disk_based = true;
  sbd_watchdog_timeout = 10;
  sbd_msgwait = 65;
  crashdump_watchdog_timeout = some 60;
  fencing_watchdog_timeout = 0;
  pcmk_delay_max = 30;
  token_and_consensus = 11;
}

metadata_expected_lem_example :
    (15 ≤ (metadata_expected 15 two_nodes).0)
    × (two_nodes.sbd_watchdog_timeout ≤ (metadata_expected 15 two_nodes).0)
    × (two_nodes.sbd_msgwait ≤ (metadata_expected 15 two_nodes).1)
    × (2 * (metadata_expected 15 two_nodes).0 + get_or 0 two_nodes.crashdump_watchdog_timeout
        ≤ (metadata_expected 15 two_nodes).1)
    × (metadata_expected 15 (record two_nodes {
      sbd_watchdog_timeout = (metadata_expected 15 two_nodes).0;
      sbd_msgwait = (metadata_expected 15 two_nodes).1;
    })
        ≡ metadata_expected 15 two_nodes)
metadata_expected_lem_example = metadata_expected_lem 15 two_nodes

check-fix_fencing_timeout_example :
    check_fencing_timeout (fix_fencing_timeout two_nodes) two_nodes ≡ success
check-fix_fencing_timeout_example = check-fix_fencing_timeout two_nodes

abbrev no_disk : Runtime
no_disk = record two_nodes { disk_based = false; fencing_watchdog_timeout = 20 }

-- `int` refuses a value with a unit.
with_unit : check_fencing_watchdog_timeout (codes "30s") no_disk ≡ none
unfolding check_fencing_watchdog_timeout is_disabled int_is_minus_one minus_one strip lstrip rstrip
    all_digits is_digit is_space to_int
with_unit = refl

-- A cluster whose agent (check 3) is missing until it is fixed.
abbrev agent : Checker Bool
agent = record {
  check = λ k w. (if k == 3 && not w then error else success, w);
  fix_method = λ k w. true;
  load = λ w. w;
}

agent_fixed : check_and_fix agent true true true true true false ≡ returned success true
unfolding check_and_fix run_items run_item after_check recheck and_then is_blocked result_of set_at
    return_helper all_success all_fine
agent_fixed = refl

check_and_fix-Passed_example :
    (check_and_fix agent true true true true true false ≡ returned success true) ↔ (
      (success ≡ success)
      × (true ≡ true)
      × (true ≡ true)
      × Passed agent true check_and_fix_items 0 (agent.load false) true)
check_and_fix-Passed_example = check_and_fix-Passed agent true true true true false true success

check_and_fix-with_fixes_example :
    (check_and_fix (with_fixes (λ k w. w) agent) false true true true true false
      ≡ check_and_fix agent false true true true true false)
    × (is_fix_failure (check_and_fix agent false true true true true false) ≡ false)
check_and_fix-with_fixes_example =
    check_and_fix-with_fixes agent (λ k w. w) true true true true false

check_disk_metadata-success_example : (check_disk_metadata 15 two_nodes ≡ success) ↔ (
    (two_nodes.disk_based ≡ false)
    ⊎ ((15 ≤ two_nodes.sbd_watchdog_timeout)
        × (2 * two_nodes.sbd_watchdog_timeout + get_or 0 two_nodes.crashdump_watchdog_timeout
            ≤ two_nodes.sbd_msgwait)))
check_disk_metadata-success_example = check_disk_metadata-success 15 two_nodes

check_systemd_start_timeout-success_example :
    (check_systemd_start_timeout (90 ∷ 120 ∷ []) 90 ≡ success)
    ↔ All (λ (a : ℕ). a ≡ 90) (90 ∷ 120 ∷ [])
check_systemd_start_timeout-success_example = check_systemd_start_timeout-success (90 ∷ 120 ∷ []) 90

check-fix_fencing_watchdog_timeout_example :
    (value : Text) × (fix_fencing_watchdog_timeout no_disk ≡ some value)
    × (check_fencing_watchdog_timeout value no_disk ≡ some success)
check-fix_fencing_watchdog_timeout_example =
    check-fix_fencing_watchdog_timeout no_disk refl (omega arith)
