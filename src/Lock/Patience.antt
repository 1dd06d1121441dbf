-- ===== src/Lock/Patience.antt =====
-- When `RemoteLock._lock_or_wait` of crmsh/lock.py gives up, and when it has the lock.
use crmsh.Prelude.{
  ℕ, zero, suc, ◌+◌, ◌≤◌, ◌<◌, ◌≡◌, ◌≢◌, refl, subst, Bool, true, Option, some, List, [], leb,
  leb→lt, Text, arith, ◌⊎◌, inl, inr, Bool-cases,
}
use native.Mathlib.Decide.{ℕ_discrete}
use crmsh.Lock.Claim.{
  claim_lock_error, Result, ok, err, Lock, Round, create_remote_lock_dir, attempt, next_timeout,
  wait_loop, lock_or_wait, lock_timeout,
}
use crmsh.Lock.Wait.{Ticks}

next_timeout-le :
    (j : Bool) (limit current timeout : ℕ) (pre online : List Text)
    → timeout ≤ current + limit
    → (timeout ≤ next_timeout j limit current timeout pre online)
      × (next_timeout j limit current timeout pre online ≤ current + limit)
unfolding next_timeout
next_timeout-le j limit current timeout pre online h = ground arith

-- An attempt that lets the loop go on has not made the directory.
attempt-err :
    (rc : ℕ) (lk lk' : Lock) (later : Option (Result (Unit {0}) × Lock))
    → attempt (create_remote_lock_dir rc lk) later ≡ some (err claim_lock_error, lk')
    → (rc ≢ 0) × (later ≡ some (err claim_lock_error, lk'))
unfolding attempt create_remote_lock_dir
attempt-err rc lk lk' later h = ground arith

attempt-ok :
    (rc : ℕ) (lk lk' : Lock) (later : Option (Result (Unit {0}) × Lock))
    → attempt (create_remote_lock_dir rc lk) later ≡ some (ok tt, lk')
    → ((rc ≡ 0) × (lk'.lock_owner ≡ true)) ⊎ ((rc ≢ 0) × (later ≡ some (ok tt, lk')))
unfolding attempt create_remote_lock_dir
attempt-ok rc lk lk' later h = elim (ℕ_discrete rc 0) [
  | yes e ↦ inl (e, ground arith)
  | no ne ↦ inr (ne, ground arith)
]

-- From round `i` on: the clock has passed `timeout` in round `k`, and no directory was made.
record GaveUp (rounds : ℕ → Round) (i timeout : ℕ) : Type 0 where
  k : ℕ
  from : i ≤ k
  passed : timeout < (rounds k).now
  refused : (j : ℕ) → i ≤ j → j ≤ k → (rounds j).rc ≢ 0

GaveUp-cons :
    (rounds : ℕ → Round) (i timeout timeout' : ℕ)
    → timeout ≤ timeout'
    → (rounds i).rc ≢ 0
    → (timeout' < (rounds i).now) ⊎ GaveUp rounds (suc i) timeout'
    → GaveUp rounds i timeout
GaveUp-cons rounds i t t' le ne (inl p) = record {
  k = i;
  from = omega arith;
  passed = omega arith;
  refused = λ j h h'. subst (λ m. (rounds m).rc ≢ 0) (omega arith) ne;
}
GaveUp-cons rounds i t t' le ne (inr g) = record {
  k = g.k;
  from = omega (arith, g.from);
  passed = omega (arith, g.passed);
  refused = λ j h h'. elim (ℕ_discrete i j) [
    | yes e ↦ subst (λ m. (rounds m).rc ≢ 0) e ne
    | no e ↦ g.refused j (omega arith) h'
  ];
}

wait_loop-GaveUp :
    (rounds : ℕ → Round) (limit : ℕ) (fuel i current timeout : ℕ) (pre : List Text) (lk lk' : Lock)
    → Ticks rounds
    → current < (rounds i).now
    → timeout ≤ current + limit
    → wait_loop fuel rounds limit i current timeout pre lk ≡ some (err claim_lock_error, lk')
    → (timeout < current) ⊎ GaveUp rounds i timeout
unfolding wait_loop
wait_loop-GaveUp rounds limit zero i current timeout pre lk lk' tk t le h = cc
wait_loop-GaveUp rounds limit (suc f) i current timeout pre lk lk' tk t le h =
    elim (Bool-cases (leb current timeout)) [
      | inr late ↦ inl (leb→lt current timeout late)
      | inl inside ↦
          let (ne, e) = attempt-err (rounds i).rc lk lk' _ (rw inside at h) in
          let (lo, hi) =
            next_timeout-le lk.for_join limit current timeout pre (rounds i).online le in
          inr (
            GaveUp-cons rounds i timeout _ lo ne (
              wait_loop-GaveUp rounds limit f (suc i) (rounds i).now _ _ lk lk' tk (tk i)
                (omega (arith, hi)) e))
    ]

wait_loop-claimed :
    (rounds : ℕ → Round) (limit : ℕ) (fuel i current timeout : ℕ) (pre : List Text) (lk lk' : Lock)
    → wait_loop fuel rounds limit i current timeout pre lk ≡ some (ok tt, lk')
    → (lk'.lock_owner ≡ true) × ((k : ℕ) × (rounds k).rc ≡ 0)
unfolding wait_loop
wait_loop-claimed rounds limit zero i current timeout pre lk lk' h = cc
wait_loop-claimed rounds limit (suc f) i current timeout pre lk lk' h =
    elim (Bool-cases (leb current timeout)) [
      | inr late ↦ cc (rw late at h)
      | inl inside ↦ elim (attempt-ok (rounds i).rc lk lk' _ (rw inside at h)) [
        | inl (e, o) ↦ (o, (i, e))
        | inr (ne, e) ↦ wait_loop-claimed rounds limit f (suc i) (rounds i).now _ _ lk lk' e
      ]
    ]

-- No `mkdir` of the rounds up to `k` made the directory.
abbrev pub NoneMade : (ℕ → Round) → ℕ → Type 0
NoneMade rounds zero = (rounds 0).rc ≢ 0
NoneMade rounds (suc k) = NoneMade rounds k × ((rounds (suc k)).rc ≢ 0)

none_made : (rounds : ℕ → Round) (k : ℕ) → ((j : ℕ) → j ≤ k → (rounds j).rc ≢ 0) → NoneMade rounds k
none_made rounds zero h = h 0 (omega arith)
none_made rounds (suc k) h =
    (none_made rounds k (λ j le. h j (omega arith)), h (suc k) (omega arith))

-- If the setting is valid and the clock moves on in each round, `_lock_or_wait` raises
-- `ClaimLockError` only when the clock has passed the start by more than the timeout in some round,
-- and no `mkdir` up to that round has made the directory.
pub lock_or_wait-patient :
    (fuel : ℕ) (rounds : ℕ → Round) (setting : Option ℕ) (start limit : ℕ) (lk lk' : Lock)
    → Ticks rounds
    → start < (rounds 0).now
    → lock_timeout setting ≡ ok limit
    → lock_or_wait fuel rounds setting start lk ≡ some (err claim_lock_error, lk')
    → (k : ℕ) × (start + limit < (rounds k).now) × NoneMade rounds k
unfolding lock_or_wait
lock_or_wait-patient fuel rounds setting start limit lk lk' tk t valid h =
    elim (wait_loop-GaveUp rounds limit fuel 0 start (start + limit) [] lk lk' tk t (omega arith)
      (rw (valid, lock_or_wait) at h)) [
        | inl late ↦ absurd (omega arith)
        | inr g ↦ (g.k, g.passed, none_made rounds g.k (λ j le. g.refused j (omega arith) le))
      ]

-- When `_lock_or_wait` returns without an exception, the object owns the lock and one of the `mkdir` calls made the
-- directory.
pub lock_or_wait-claimed :
    (fuel : ℕ) (rounds : ℕ → Round) (setting : Option ℕ) (start : ℕ) (lk lk' : Lock)
    → lock_or_wait fuel rounds setting start lk ≡ some (ok tt, lk')
    → (lk'.lock_owner ≡ true) × ((k : ℕ) × (rounds k).rc ≡ 0)
unfolding lock_or_wait
lock_or_wait-claimed fuel rounds setting start lk lk' h = go (lock_timeout setting) refl
  where
    go :
        (r : Result ℕ)
        → lock_timeout setting ≡ r
        → (lk'.lock_owner ≡ true) × ((k : ℕ) × (rounds k).rc ≡ 0)
    go (err e) v = cc (rw (v, lock_or_wait) at h)
    go (ok limit) v =
        wait_loop-claimed rounds limit fuel 0 start (start + limit) [] lk lk'
          (rw (v, lock_or_wait) at h)
