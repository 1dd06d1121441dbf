-- ===== src/Examples/Lock.antt =====
-- crmsh/lock.py: a node that finds the lock taken, and one that gets it in the third round.
use crmsh.Prelude.{
  ℕ, ◌+◌, ◌*◌, ◌<◌, ◌≡◌, refl, true, false, some, [], inl, arith, ◌==◌, if◌then◌else◌,
}
use crmsh.Lock.Claim.{
  Result, ok, err, claim_lock_error, Lock, init, Round, wait_loop, lock_or_wait, lock_timeout,
  create_remote_lock_dir, create_lock_dir, unlock, next_timeout, attempt, lock_remote, remote_claim,
}
use crmsh.Lock.Wait.{Ticks, lock_or_wait-ends}
use crmsh.Lock.Patience.{NoneMade, lock_or_wait-patient, lock_or_wait-claimed}
use crmsh.Lock.Remote.{IsBracket, lock_remote-IsBracket}
use crmsh.Lock.Exclusion.{
  World, claim, release, Reach, here, next, try, give_up, start, mutual_exclusion,
}

abbrev joining : Lock
joining = init true true

-- The directory is made in no round; each takes a hundred seconds.
abbrev taken : ℕ → Round
taken k = record { rc = 1; online = []; now = 100 * k + 100 }

taken-Ticks : Ticks taken
taken-Ticks k = omega arith

-- The lock is free in round 2.
abbrev freed : ℕ → Round
freed k = record { rc = if k == 2 then 0 else 1; online = []; now = 10 * k + 10 }

freed-Ticks : Ticks freed
freed-Ticks k = omega arith

two_minutes : lock_timeout (some 120) ≡ ok 120
unfolding lock_timeout
two_minutes = refl

lock_or_wait-ends_example :
    (r : Result (Unit {0}) × Lock) × (lock_or_wait 122 freed (some 120) 0 (init false true)
      ≡ some r)
lock_or_wait-ends_example =
    lock_or_wait-ends freed (some 120) 0 120 (init false true) freed-Ticks (omega arith) (inl refl)
      two_minutes

gives_up : lock_or_wait 4 taken (some 120) 0 joining ≡ some (err claim_lock_error, joining)
unfolding lock_or_wait lock_timeout wait_loop attempt create_remote_lock_dir create_lock_dir
    next_timeout
gives_up = refl

lock_or_wait-patient_example : (k : ℕ) × (0 + 120 < (taken k).now) × NoneMade taken k
lock_or_wait-patient_example =
    lock_or_wait-patient 4 taken (some 120) 0 120 joining joining taken-Ticks (omega arith)
      two_minutes gives_up

abbrev owned : Lock
owned = record { lock_owner = true; for_join = true; wait = true }

gets_it : lock_or_wait 4 freed (some 120) 0 joining ≡ some (ok tt, owned)
unfolding lock_or_wait lock_timeout wait_loop attempt create_remote_lock_dir create_lock_dir
    next_timeout
gets_it = refl

lock_or_wait-claimed_example : (owned.lock_owner ≡ true) × ((k : ℕ) × (freed k).rc ≡ 0)
lock_or_wait-claimed_example = lock_or_wait-claimed 4 freed (some 120) 0 joining owned gets_it

abbrev one : ℕ
one = 1

abbrev entered : World
entered = claim 1 (release 0 start)

reached : Reach start entered
unfolding claim release create_lock_dir unlock
reached = next (next here (give_up 0 refl)) (try 1 refl)

mutual_exclusion_example : (one ≡ one) × (entered.directory ≡ true)
unfolding claim release create_lock_dir unlock
mutual_exclusion_example = mutual_exclusion entered one one reached refl refl

held : lock_remote 4 freed (some 120) 0 0 0 (ok tt) joining ≡ some (ok tt, owned, true)
unfolding lock_remote remote_claim lock_or_wait lock_timeout wait_loop attempt
    create_remote_lock_dir create_lock_dir next_timeout
held = refl

lock_remote-IsBracket_example : IsBracket (ok tt) (ok tt, owned, true)
lock_remote-IsBracket_example =
    lock_remote-IsBracket 4 freed (some 120) 0 0 0 (ok tt) joining (ok tt, owned, true) refl held
