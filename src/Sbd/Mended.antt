-- ===== src/Sbd/Mended.antt =====
-- What the checks of crmsh/sbd.py say of a value, and after its fix.
use crmsh.Prelude.{
  ap, is_empty, strip, lstrip, rstrip, is_digit, all_digits, All-str, ◌≤◌, ◌⊎◌, ◌+◌, false,
  Bool-cases, inl, inr, ℕ, ◌*◌, ◌/◌, ◌<◌, ◌≡◌, ◌↔◌, refl, Bool, true, false, some, List, [], ◌∷◌,
  append-nil, ◌==◌, ltb, if◌then◌else◌, arith, same, Text, str, All,
}
use Prim.Native.Nat.{max}
use crmsh.Units.Time.{crm_msec, lower, unit}
use crmsh.Units.RoundTrip.{crm_msec-str, IsDigit, IsDigit-code, digit_space, is_empty-str}
use crmsh.Sbd.Timeout.{
  get_or, metadata_expected, Runtime, metadata_expected, fencing_timeout_expected,
}
use crmsh.Sbd.Checker.{success, warning, error, is_success, all_success, any_error, return_helper}
use crmsh.Sbd.Checks.{
  int_is_minus_one, minus_one, fix_fencing_watchdog_timeout, is_disabled,
  check_fencing_watchdog_timeout, check_disk_metadata, compare_timeout, compare_all,
  check_systemd_start_timeout, seconds, check_fencing_timeout, fix_fencing_timeout,
}

compare_timeout-success :
    (value expected : ℕ) → (is_success (compare_timeout value expected) ≡ true) ↔ (value ≡ expected)
unfolding compare_timeout
compare_timeout-success value expected = (λ h. ground arith, λ e. ground arith)

compare_all-success :
    (actuals : List ℕ) (expected : ℕ)
    → (all_success (compare_all actuals expected) ≡ true) ↔ All (λ a. a ≡ expected) actuals
unfolding compare_all all_success
compare_all-success [] expected = (λ h. tt, λ a. refl)
compare_all-success (x ∷ xs) expected = (
  λ h. (
    (compare_timeout-success x expected).0 (ground arith),
    (compare_all-success xs expected).0 (ground arith),
  ),
  λ (e, a).
      ground
        (arith, (compare_timeout-success x expected).1 e, (compare_all-success xs expected).1 a),
)

not_worse :
    (a e : Bool) → (if a then success else if e then error else warning) ≡ success → a ≡ true
not_worse true e h = refl
not_worse false true h = cc
not_worse false false h = cc

-- The check of the start timeout succeeds exactly when it is the expected one on every node.
pub check_systemd_start_timeout-success :
    (actuals : List ℕ) (expected : ℕ)
    → (check_systemd_start_timeout actuals expected ≡ success) ↔ All (λ a. a ≡ expected) actuals
unfolding check_systemd_start_timeout return_helper
check_systemd_start_timeout-success actuals expected = (
  λ h. (compare_all-success actuals expected).0 (
      not_worse (all_success (compare_all actuals expected))
        (any_error (compare_all actuals expected)) h),
  λ a. rw ((compare_all-success actuals expected).1 a),
)

-- A number without a unit is read as seconds.
seconds-str : (n : ℕ) → seconds (str n) ≡ n
unfolding seconds lower unit same
seconds-str n =
    let e : crm_msec (str n) ≡ some (n * 1000 / 1) = rw append-nil at (crm_msec-str n [] tt) in
    rw e (omega arith)

-- After the fix of the fencing timeout, the check of the property succeeds.
pub check-fix_fencing_timeout :
    (r : Runtime) → check_fencing_timeout (fix_fencing_timeout r) r ≡ success
unfolding check_fencing_timeout fix_fencing_timeout compare_timeout
check-fix_fencing_timeout r = rw (seconds-str (fencing_timeout_expected r)) (ground arith)

metadata_fine :
    (p w m n : ℕ)
    → ((if ltb w (max p w)
          then error
          else if ltb m (max (if ltb 0 n then 2 * max p w + n else 2 * max p w) m)
          then error
          else success)
        ≡ success)
      ↔ ((p ≤ w) × (2 * w + n ≤ m))
metadata_fine p w m n = (λ h. (ground arith, ground arith), λ (fine, room). ground arith)

-- The check of the metadata of a disk succeeds exactly where there is no disk, or where its watchdog
-- timeout is not below that of the profiles and msgwait leaves room for two of its watchdog timeouts
-- and the crashdump timeout, if one is set.
pub check_disk_metadata-success :
    (p : ℕ) (r : Runtime)
    → (check_disk_metadata p r ≡ success) ↔ (
        (r.disk_based ≡ false)
        ⊎ ((p ≤ r.sbd_watchdog_timeout)
            × (2 * r.sbd_watchdog_timeout + get_or 0 r.crashdump_watchdog_timeout ≤ r.sbd_msgwait)))
unfolding check_disk_metadata metadata_expected
check_disk_metadata-success p r = elim (Bool-cases r.disk_based) [
  | inl disk ↦
      let (to, back) =
        metadata_fine p r.sbd_watchdog_timeout r.sbd_msgwait
          (get_or 0 r.crashdump_watchdog_timeout) in
      (
        λ h. inr (to (rw disk at h)),
        λ s. elim s [ inl off ↦ cc | inr enough ↦ rw disk (back enough) ],
      )
  | inr off ↦ (λ h. inl off, λ s. rw off refl)
]

lstrip-number : (s : Text) → All IsDigit s → lstrip s ≡ s
unfolding lstrip
lstrip-number [] a = refl
lstrip-number (c ∷ s) a = rw (digit_space c a.0)

rstrip-number : (s : Text) → All IsDigit s → rstrip s ≡ s
unfolding rstrip
rstrip-number [] a = refl
rstrip-number (c ∷ s) a = rw (digit_space c a.0) (ap (λ z. c ∷ z) (rstrip-number s a.1))

all_digits-number : (s : Text) → All IsDigit s → all_digits s ≡ true
unfolding all_digits
all_digits-number [] a = refl
all_digits-number (c ∷ s) a = rw (a.0, all_digits-number s a.1)

-- A number is none of the signs.
digit_sign : (c : ℕ) → IsDigit c → ((c == b'-') ≡ false) × ((c == b'+') ≡ false)
unfolding is_digit
digit_sign c h = (ground arith, ground arith)

int-number : (s : Text) → is_empty s ≡ false → All IsDigit s → int_is_minus_one s ≡ some false
unfolding int_is_minus_one minus_one
int-number [] filled a = cc
int-number (c ∷ s) filled a =
    let (minus, plus) = digit_sign c a.0 in rw (minus, plus, all_digits-number (c ∷ s) a) refl

is_disabled-str : (n : ℕ) → is_disabled (str n) ≡ some false
unfolding is_disabled strip
is_disabled-str n =
    let a = All-str IsDigit n IsDigit-code in
    rw (is_empty-str n, lstrip-number (str n) a, rstrip-number (str n) a)
      (int-number (str n) (is_empty-str n) a)

diskless_seconds :
    (value : Text) (r : Runtime)
    → is_disabled value ≡ some false
    → r.disk_based ≡ false
    → seconds value ≡ r.fencing_watchdog_timeout
    → 0 < r.fencing_watchdog_timeout
    → check_fencing_watchdog_timeout value r ≡ some success
unfolding check_fencing_watchdog_timeout compare_timeout
diskless_seconds value r read diskless same_value pos =
    rw (read, check_fencing_watchdog_timeout, diskless) (ground (arith, same_value))

-- Without a disk, and where the expected `fencing-watchdog-timeout` is not 0, its fix sets a value with
-- which its check succeeds.
pub check-fix_fencing_watchdog_timeout :
    (r : Runtime)
    → r.disk_based ≡ false
    → 0 < r.fencing_watchdog_timeout
    → (value : Text) × (fix_fencing_watchdog_timeout r ≡ some value)
      × (check_fencing_watchdog_timeout value r ≡ some success)
unfolding fix_fencing_watchdog_timeout
check-fix_fencing_watchdog_timeout r diskless pos = (
  str r.fencing_watchdog_timeout,
  rw diskless refl,
  diskless_seconds (str r.fencing_watchdog_timeout) r (is_disabled-str r.fencing_watchdog_timeout)
      diskless (seconds-str r.fencing_watchdog_timeout) pos,
)
