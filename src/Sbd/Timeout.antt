-- ===== src/Sbd/Timeout.antt =====
-- The class `SBDTimeout` of crmsh/sbd.py: its formulas over what the bootstrap context, the
-- configuration files and corosync say.
--
-- Timeouts are whole seconds, and none is negative. `int(1.2 * x)` is `12 * x / 10` rounded down,
-- which is what the double of 1.2 gives for every `x` below 2 ** 50. A value that may be `None` is an
-- option; 0 counts as absent where the source tests it by `or` or `if`.
use crmsh.Prelude.{
  ℕ, ◌+◌, ◌*◌, ◌/◌, Bool, true, false, not, ◌&&◌, Option, none, some, ltb, leb, if◌then◌else◌, ◌≡◌,
  refl, Text, codes, same,
}
use Prim.Native.Nat.{max}

-- `SBD_WATCHDOG_TIMEOUT_DEFAULT` and its variants, `QDEVICE_SYNC_TIMEOUT_MARGIN`,
-- `constants.FENCING_TIMEOUT_DEFAULT`
abbrev pub watchdog_timeout_default : ℕ
watchdog_timeout_default = 5

abbrev pub watchdog_timeout_default_s390 : ℕ
watchdog_timeout_default_s390 = 15

abbrev pub watchdog_timeout_default_with_qdevice : ℕ
watchdog_timeout_default_with_qdevice = 35

abbrev pub qdevice_sync_timeout_margin : ℕ
qdevice_sync_timeout_margin = 5

abbrev pub fencing_timeout_default : ℕ
fencing_timeout_default = 60

-- What `__init__` reads from the bootstrap context and the running cluster.
pub record Bootstrap : Type 0 where
  pub profile_watchdog_timeout : Option ℕ
  pub profile_msgwait : Option ℕ
  pub is_s390 : Bool
  pub diskless_sbd : Bool
  pub qdevice_inst : Bool
  -- qdevice is in corosync.conf and its service is active, and its sync timeout
  pub qdevice_running : Bool
  pub qdevice_sync_timeout : ℕ

abbrev pub get_or : ℕ → Option ℕ → ℕ
get_or d none = d
get_or d (some n) = n

-- `_set_sbd_watchdog_timeout`
unfoldable pub set_sbd_watchdog_timeout : Bootstrap → ℕ
set_sbd_watchdog_timeout ctx =
    let timeout = get_or watchdog_timeout_default ctx.profile_watchdog_timeout in
    if ctx.is_s390 && ltb timeout watchdog_timeout_default_s390
    then watchdog_timeout_default_s390
    else timeout

-- `_set_sbd_msgwait`
unfoldable pub set_sbd_msgwait : Bootstrap → ℕ → ℕ
set_sbd_msgwait ctx timeout =
    let default = 2 * timeout in
    let msgwait = get_or default ctx.profile_msgwait in
    if ltb msgwait default then default else msgwait

-- `_adjust_sbd_watchdog_timeout_with_diskless_and_qdevice`
unfoldable pub adjust_with_diskless_and_qdevice : Bootstrap → ℕ → ℕ
adjust_with_diskless_and_qdevice ctx timeout =
    if ctx.qdevice_running
    then (if leb timeout ctx.qdevice_sync_timeout
        then ctx.qdevice_sync_timeout + qdevice_sync_timeout_margin
        else timeout)
    else if ctx.qdevice_inst
    then (if ltb timeout watchdog_timeout_default_with_qdevice
        then watchdog_timeout_default_with_qdevice
        else timeout)
    else timeout

-- `_initialize_timeout_from_bootstrap`: `sbd_watchdog_timeout`, and `sbd_msgwait` with a disk.
unfoldable pub initialize : Bootstrap → ℕ × Option ℕ
initialize ctx =
    let timeout = set_sbd_watchdog_timeout ctx in
    if ctx.diskless_sbd
    then (adjust_with_diskless_and_qdevice ctx timeout, none)
    else (timeout, some (set_sbd_msgwait ctx timeout))

-- `get_sbd_watchdog_timeout_expected`
unfoldable pub watchdog_timeout_expected : Bootstrap → Bool → ℕ
watchdog_timeout_expected profiles diskless =
    (initialize (record profiles { diskless_sbd = diskless })).0

-- What `_load_configurations_from_runtime` finds.
pub record Runtime : Type 0 where
  pub disk_based : Bool
  pub sbd_watchdog_timeout : ℕ
  pub sbd_msgwait : ℕ
  pub crashdump_watchdog_timeout : Option ℕ
  pub fencing_watchdog_timeout : ℕ
  pub pcmk_delay_max : ℕ
  -- `corosync.token_and_consensus_timeout()`
  pub token_and_consensus : ℕ

-- `get_fencing_watchdog_timeout_expected`, on the two values or those of the configuration.
unfoldable pub fencing_watchdog_timeout_expected : Option ℕ → ℕ → ℕ
fencing_watchdog_timeout_expected cwt swt =
    if ltb 0 (get_or 0 cwt) then max (swt + get_or 0 cwt) (2 * swt) else 2 * swt

-- `get_sbd_metadata_expected`, with the watchdog timeout expected from the profiles.
unfoldable pub metadata_expected : ℕ → Runtime → ℕ × ℕ
metadata_expected from_profiles r =
    let watchdog = max from_profiles r.sbd_watchdog_timeout in
    let from_formula =
      if ltb 0 (get_or 0 r.crashdump_watchdog_timeout)
      then 2 * watchdog + get_or 0 r.crashdump_watchdog_timeout
      else 2 * watchdog in
    (watchdog, max from_formula r.sbd_msgwait)

-- `int(1.2 * x)`
unfoldable pub plus_a_fifth : ℕ → ℕ
plus_a_fifth x = 12 * x / 10

-- `get_fencing_timeout_expected`
unfoldable pub fencing_timeout_expected : Runtime → ℕ
unfolding plus_a_fifth
fencing_timeout_expected r =
    let value_from_sbd =
      if r.disk_based
      then plus_a_fifth r.sbd_msgwait
      else plus_a_fifth (max r.fencing_watchdog_timeout (2 * r.sbd_watchdog_timeout)) in
    max value_from_sbd fencing_timeout_default + r.token_and_consensus

-- `get_sbd_delay_start_expected`
unfoldable pub delay_start_expected : Runtime → ℕ
delay_start_expected r =
    if r.disk_based
    then r.token_and_consensus + r.pcmk_delay_max + r.sbd_msgwait
    else r.token_and_consensus + 2 * r.sbd_watchdog_timeout

-- `get_sbd_systemd_start_timeout_expected`; the setting is `none` where it is no number.
unfoldable pub systemd_start_timeout_expected : Option ℕ → ℕ → ℕ
unfolding plus_a_fifth
systemd_start_timeout_expected none default_value = default_value
systemd_start_timeout_expected (some delay_start) default_value =
    max (plus_a_fifth delay_start) default_value

-- A value that an administrator wants to set, `none` for -1.
unfoldable pub able_to_set_fencing_watchdog_timeout : Bool → ℕ → Option ℕ → Bool
able_to_set_fencing_watchdog_timeout sbd_active swt none = sbd_active
able_to_set_fencing_watchdog_timeout sbd_active swt (some value) =
    if not sbd_active then false else if ltb value (2 * swt) then false else true

-- `get_timeout_minimum_value`; `none` is the `ValueError`.
unfoldable pub timeout_minimum_value : Bootstrap → Text → Bool → Option ℕ
timeout_minimum_value profiles type diskless =
    if same type (codes "allocate")
    then some 2
    else if same type (codes "loop")
    then some 1
    else if same type (codes "crashdump-watchdog")
    then some 1
    else if same type (codes "watchdog")
    then some (watchdog_timeout_expected profiles diskless)
    else if same type (codes "msgwait")
    then some (2 * watchdog_timeout_expected profiles false)
    else none

fifth_of_five : plus_a_fifth 5 ≡ 6
unfolding plus_a_fifth
fifth_of_five = refl
