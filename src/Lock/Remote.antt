-- ===== src/Lock/Remote.antt =====
-- What `RemoteLock.lock` of crmsh/lock.py removes.
use crmsh.Prelude.{
  ℕ, zero, suc, ◌≡◌, refl, Bool, true, false, Option, some, List, Text, arith, ◌⊎◌, inl, inr, ◌==◌,
  leb, if◌then◌else◌, Bool-cases, Option-cases, subst,
}
use mathlib.Core.Option.{some_inj}
use crmsh.Lock.Claim.{
  Error, ssh_error, Result, ok, err, Lock, Round, ssh_exit_err, create_lock_dir,
  create_remote_lock_dir, attempt, lock_timeout, wait_loop, lock_or_wait, remote_lock_or_fail,
  remote_release, remote_around, remote_claim, lock_remote,
}

-- A claim that was made owns the lock, and one that failed does not.
abbrev pub Claims : Result (Unit {0}) × Lock → Type 0
Claims (ok _, lk) = lk.lock_owner ≡ true
Claims (err e, lk) = lk.lock_owner ≡ false

attempt-Claims :
    (rc : ℕ) (lk : Lock) (later : Option (Result (Unit {0}) × Lock)) (p : Result (Unit {0}) × Lock)
    → lk.lock_owner ≡ false
    → (attempt (create_remote_lock_dir rc lk) later ≡ some p)
    → Claims p ⊎ (later ≡ some p)
unfolding attempt create_remote_lock_dir
attempt-Claims rc lk later (ok _, lk') free h = ground arith
attempt-Claims rc lk later (err e, lk') free h = ground arith

wait_loop-Claims :
    (fuel : ℕ) (rounds : ℕ → Round) (limit i current timeout : ℕ) (pre : List Text) (lk : Lock)
    (p : Result (Unit {0}) × Lock)
    → lk.lock_owner ≡ false
    → wait_loop fuel rounds limit i current timeout pre lk ≡ some p
    → Claims p
unfolding wait_loop
wait_loop-Claims zero rounds limit i current timeout pre lk p free h = cc
wait_loop-Claims (suc f) rounds limit i current timeout pre lk p free h =
    elim (Bool-cases (leb current timeout)) [
      | inr late ↦ subst Claims (some_inj.0 (rw late at h)) free
      | inl inside ↦ elim (attempt-Claims (rounds i).rc lk _ p free (rw inside at h)) [
        | inl c ↦ c
        | inr later ↦ wait_loop-Claims f rounds limit (suc i) (rounds i).now _ _ lk p free later
      ]
    ]

lock_or_wait-Claims :
    (fuel : ℕ) (rounds : ℕ → Round) (setting : Option ℕ) (start : ℕ) (lk : Lock)
    (p : Result (Unit {0}) × Lock)
    → lk.lock_owner ≡ false
    → lock_or_wait fuel rounds setting start lk ≡ some p
    → Claims p
unfolding lock_or_wait
lock_or_wait-Claims fuel rounds setting start lk p free h = go (lock_timeout setting) refl
  where
    go : (r : Result ℕ) → lock_timeout setting ≡ r → Claims p
    go (err e) v = subst Claims (some_inj.0 (rw (v, lock_or_wait) at h)) free
    go (ok limit) v =
        wait_loop-Claims fuel rounds limit 0 start _ _ lk p free (rw (v, lock_or_wait) at h)

remote_lock_or_fail-Claims :
    (rc : ℕ) (lk : Lock) → lk.lock_owner ≡ false → Claims (remote_lock_or_fail rc lk)
unfolding remote_lock_or_fail create_lock_dir
remote_lock_or_fail-Claims rc lk free = elim (Bool-cases (rc == ssh_exit_err)) [
  | inl failed ↦ rw failed free
  | inr ran ↦ elim (Bool-cases (rc == 0)) [
    | inl made ↦ rw (ran, made) refl
    | inr refused ↦ rw (ran, refused) free
  ]
]

Claims-either :
    (b : Bool) (o : Option (Result (Unit {0}) × Lock)) (q p : Result (Unit {0}) × Lock)
    → (o ≡ some p → Claims p)
    → Claims q
    → (if b then o else some q) ≡ some p
    → Claims p
Claims-either true o q p waited now h = waited h
Claims-either false o q p waited now h = subst Claims (some_inj.0 h) now

remote_claim-Claims :
    (fuel : ℕ) (rounds : ℕ → Round) (setting : Option ℕ) (start rc : ℕ) (lk : Lock)
    (p : Result (Unit {0}) × Lock)
    → lk.lock_owner ≡ false
    → remote_claim fuel rounds setting start rc lk ≡ some p
    → Claims p
unfolding remote_claim
remote_claim-Claims fuel rounds setting start rc lk p free h =
    Claims-either lk.wait (lock_or_wait fuel rounds setting start lk) (remote_lock_or_fail rc lk) p
      (λ e. lock_or_wait-Claims fuel rounds setting start lk p free e)
      (remote_lock_or_fail-Claims rc lk free) h

-- The lock was held around the body and the directory is removed, or nothing was held and nothing is
-- removed.
abbrev pub IsBracket : Result (Unit {0}) → Result (Unit {0}) × Lock × Bool → Type 0
IsBracket body (outcome, lk, removed) =
    ((removed ≡ true) × (lk.lock_owner ≡ true) × ((outcome ≡ body) ⊎ (outcome ≡ err ssh_error)))
    ⊎ ((removed ≡ false) × (lk.lock_owner ≡ false) × ((e : Error) × (outcome ≡ err e)))

remote_around-IsBracket :
    (rm_rc : ℕ) (body : Result (Unit {0})) (p : Result (Unit {0}) × Lock)
    → Claims p
    → IsBracket body (remote_around rm_rc body p)
unfolding remote_around remote_release
remote_around-IsBracket rm_rc body (err e, lk) c = inr (rw c (refl, refl, (e, refl)))
remote_around-IsBracket rm_rc body (ok _, lk) c = inl (
    rw c (
      refl,
      refl,
      elim (Bool-cases (rm_rc == ssh_exit_err)) [
        | inl lost ↦ inr (rw lost)
        | inr fine ↦ inl (rw fine)
      ],
    ))

-- On an object that has owned no lock yet, `RemoteLock.lock` either claims the lock, runs the body
-- and removes the directory (the outcome is that of the body, or the failed ssh of the removal), or
-- raises without the lock and removes nothing.
pub lock_remote-IsBracket :
    (fuel : ℕ) (rounds : ℕ → Round) (setting : Option ℕ) (start rc rm_rc : ℕ)
    (body : Result (Unit {0})) (lk : Lock) (r : Result (Unit {0}) × Lock × Bool)
    → lk.lock_owner ≡ false
    → lock_remote fuel rounds setting start rc rm_rc body lk ≡ some r
    → IsBracket body r
unfolding lock_remote
lock_remote-IsBracket fuel rounds setting start rc rm_rc body lk r free h =
    elim (Option-cases (remote_claim fuel rounds setting start rc lk)) [
      | inl over ↦ cc (rw (over, lock_remote) at h)
      | inr (p, e) ↦ subst (IsBracket body) (some_inj.0 (rw (e, lock_remote) at h)) (
          remote_around-IsBracket rm_rc body p
            (remote_claim-Claims fuel rounds setting start rc lk p free e))
    ]
