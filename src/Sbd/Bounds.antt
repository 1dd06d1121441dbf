-- ===== src/Sbd/Bounds.antt =====
-- The relations that the timeouts of crmsh/sbd.py keep among one another.
use crmsh.Prelude.{
  ℕ, suc, ◌+◌, ◌*◌, ◌≤◌, ◌≡◌, refl, ap, not, ◌&&◌, Option, none, some, ltb, arith, if◌then◌else◌,
  Bool-cases, inl, inr,
}
use Prim.Native.Nat.{max}
use crmsh.Sbd.Timeout.{
  Bootstrap, Runtime, get_or, set_sbd_watchdog_timeout, set_sbd_msgwait,
  adjust_with_diskless_and_qdevice, initialize, metadata_expected,
}

msgwait_max :
    (o : Option ℕ) (t : ℕ)
    → (if ltb (get_or (2 * t) o) (2 * t) then 2 * t else get_or (2 * t) o)
      ≡ max (2 * t) (get_or 0 o)
msgwait_max none t = ground arith
msgwait_max (some n) t = ground arith

max_again : (a b : ℕ) → max a (max a b) ≡ max a b
max_again a b = omega arith

-- The watchdog timeout from the bootstrap context is never below the profile's or the default; it is
-- at least 15 on s390; without a disk, it is above the sync timeout of a running qdevice, and at
-- least 35 where a qdevice is only being added.
pub initialize-watchdog :
    (ctx : Bootstrap)
    → (get_or 5 ctx.profile_watchdog_timeout ≤ (initialize ctx).0)
      × ((if ctx.is_s390 then 15 else 0) ≤ (initialize ctx).0)
      × ((if ctx.diskless_sbd && ctx.qdevice_running then suc ctx.qdevice_sync_timeout else 0)
          ≤ (initialize ctx).0)
      × ((if ctx.diskless_sbd && not ctx.qdevice_running && ctx.qdevice_inst then 35 else 0)
          ≤ (initialize ctx).0)
unfolding initialize set_sbd_watchdog_timeout adjust_with_diskless_and_qdevice
initialize-watchdog ctx = (ground arith, ground arith, ground arith, ground arith)

-- msgwait is set exactly with a disk, and then is the larger of the profile's value and twice the
-- watchdog timeout.
pub initialize-msgwait :
    (ctx : Bootstrap)
    → (initialize ctx).1 ≡ (
        if ctx.diskless_sbd
        then none
        else some (max (2 * (initialize ctx).0) (get_or 0 ctx.profile_msgwait)))
unfolding initialize set_sbd_msgwait
initialize-msgwait ctx = elim (Bool-cases ctx.diskless_sbd) [
  | inl e ↦ simp e
  | inr e ↦ simp e (ap some (msgwait_max ctx.profile_msgwait _))
]

-- What `get_sbd_metadata_expected` asks for is at least what is configured and what the profiles ask
-- for, leaves msgwait room for two watchdog timeouts and the crashdump timeout, and asks for nothing
-- more once it is written to the disk.
pub metadata_expected_lem :
    (p : ℕ) (r : Runtime)
    → (p ≤ (metadata_expected p r).0)
      × (r.sbd_watchdog_timeout ≤ (metadata_expected p r).0)
      × (r.sbd_msgwait ≤ (metadata_expected p r).1)
      × (2 * (metadata_expected p r).0 + get_or 0 r.crashdump_watchdog_timeout
          ≤ (metadata_expected p r).1)
      × (metadata_expected p (record r {
        sbd_watchdog_timeout = (metadata_expected p r).0;
        sbd_msgwait = (metadata_expected p r).1;
      })
          ≡ metadata_expected p r)
unfolding metadata_expected
metadata_expected_lem p r =
    (ground arith, ground arith, ground arith, ground arith, simp max_again refl)
