-- ===== src/Sbd/Checks.antt =====
-- The single checks of `SBDConfigChecker` in crmsh/sbd.py, over what they read from the cluster.
--
-- A property that is not set is the empty string. `int(value)` is read on decimal digits with a sign.
use crmsh.Prelude.{
  ℕ, ◌/◌, Bool, true, false, not, ◌&&◌, Option, none, some, List, [], ◌∷◌, ◌==◌, ltb, if◌then◌else◌,
  Text, codes, same, str, strip, is_empty, all_digits,
}
use crmsh.Units.Time.{to_int, crm_msec}
use crmsh.Sbd.Timeout.{
  Bootstrap, Runtime, get_or, watchdog_timeout_expected, metadata_expected,
  fencing_timeout_expected,
}
use crmsh.Sbd.Checker.{CheckResult, success, warning, error, return_helper}

-- `_check_sbd_disk_metadata`, with the watchdog timeout expected from the profiles.
unfoldable pub check_disk_metadata : ℕ → Runtime → CheckResult
check_disk_metadata from_profiles r =
    let expected = metadata_expected from_profiles r in
    if r.disk_based
    then (if ltb r.sbd_watchdog_timeout expected.0
        then error
        else if ltb r.sbd_msgwait expected.1
        then error
        else success)
    else success

-- `_check_sbd_watchdog_timeout`
unfoldable pub check_watchdog_timeout : Bootstrap → Runtime → CheckResult
check_watchdog_timeout profiles r =
    if not r.disk_based && ltb r.sbd_watchdog_timeout (watchdog_timeout_expected profiles true)
    then error
    else success

-- A value that has to be the expected one: too small is an error, too large a warning.
unfoldable pub compare_timeout : ℕ → ℕ → CheckResult
compare_timeout value expected =
    if ltb value expected then error else if ltb expected value then warning else success

-- `s.isdigit()`
abbrev pub isdigit : Text → Bool
isdigit s = not (is_empty s) && all_digits s

-- `_check_sbd_delay_start`
unfoldable pub check_delay_start : Text → Text → CheckResult
check_delay_start config_value expected_value =
    if same config_value expected_value
    then success
    else if isdigit config_value && isdigit expected_value
    then (if ltb (to_int 0 config_value) (to_int 0 expected_value) then error else warning)
    else error

-- The results for each node.
unfoldable pub compare_all : List ℕ → ℕ → List CheckResult
unfolding compare_timeout
compare_all [] expected = []
compare_all (actual ∷ rest) expected = compare_timeout actual expected ∷ compare_all rest expected

-- `_check_sbd_systemd_start_timeout`, with the timeouts that the nodes have.
unfoldable pub check_systemd_start_timeout : List ℕ → ℕ → CheckResult
unfolding compare_all
check_systemd_start_timeout actuals expected = return_helper (compare_all actuals expected)

-- `int(utils.crm_msec(value)/1000)`, where -1 gives 0.
unfoldable pub seconds : Text → ℕ
seconds value = get_or 0 (crm_msec value) / 1000

-- `int(s) == -1`, for digits behind a sign; `none` is the `ValueError`.
unfoldable pub minus_one : Bool → Text → Option Bool
minus_one negative s = if isdigit s then some (negative && to_int 0 s == 1) else none

unfoldable pub int_is_minus_one : Text → Option Bool
unfolding minus_one
int_is_minus_one [] = none
int_is_minus_one (c ∷ s) =
    if c == b'-'
    then minus_one true s
    else if c == b'+'
    then minus_one false s
    else minus_one false (c ∷ s)

-- `value and int(value) == -1`
unfoldable pub is_disabled : Text → Option Bool
is_disabled value = if is_empty value then some false else int_is_minus_one (strip value)

-- `_check_fencing_watchdog_timeout`
unfoldable pub check_fencing_watchdog_timeout : Text → Runtime → Option CheckResult
unfolding compare_timeout
check_fencing_watchdog_timeout value r = elim (is_disabled value) [
  | none ↦ none
  | some disabled ↦ some (
      if disabled
      then warning
      else if r.disk_based
      then (if ltb 0 (seconds value) then warning else success)
      else if seconds value == 0
      then error
      else compare_timeout (seconds value) r.fencing_watchdog_timeout)
]

-- `_fix_fencing_watchdog_timeout`: the new value of the property, `none` where it is deleted.
unfoldable pub fix_fencing_watchdog_timeout : Runtime → Option Text
fix_fencing_watchdog_timeout r =
    if r.disk_based then none else some (str r.fencing_watchdog_timeout)

-- `_check_fencing_timeout`
unfoldable pub check_fencing_timeout : Text → Runtime → CheckResult
check_fencing_timeout value r = compare_timeout (seconds value) (fencing_timeout_expected r)

-- `_fix_fencing_timeout`: the new value of the property.
unfoldable pub fix_fencing_timeout : Runtime → Text
fix_fencing_timeout r = str (fencing_timeout_expected r)

-- `_check_fencing_enabled`
unfoldable pub check_fencing_enabled : Text → CheckResult
check_fencing_enabled value = if same value (codes "false") then error else success
