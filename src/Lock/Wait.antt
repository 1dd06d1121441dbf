-- ===== src/Lock/Wait.antt =====
-- The waiting loop of `RemoteLock._lock_or_wait` in crmsh/lock.py.
use crmsh.Prelude.{
  ℕ, zero, suc, ◌+◌, ◌<◌, ◌≡◌, refl, Bool, true, false, Option, some, List, [], leb, leb→le,
  if◌then◌else◌, Text, arith, ◌⊎◌, inl, inr, Bool-cases,
}
use crmsh.Lock.Claim.{
  claim_lock_error, Result, ok, err, Lock, Round, create_remote_lock_dir, same_nodes, next_timeout,
  attempt, wait_loop, lock_or_wait, lock_timeout,
}

-- The clock of each round is later than that of the round before.
abbrev pub Ticks : (ℕ → Round) → Type 0
Ticks rounds = (k : ℕ) → (rounds k).now < (rounds (suc k)).now

-- The online nodes do not change from one round to the next.
abbrev pub IsStable : (ℕ → Round) → Type 0
IsStable rounds = (k : ℕ) → same_nodes (rounds k).online (rounds (suc k)).online ≡ true

-- The list of the round before is empty, or that of this round.
abbrev Agrees : Bool → List Text → Round → Type 0
Agrees false pre r = Unit
Agrees true pre r = (pre ≡ []) ⊎ (same_nodes pre r.online ≡ true)

next_timeout-Agrees :
    (j : Bool) (limit current timeout : ℕ) (pre : List Text) (r : Round)
    → Agrees j pre r
    → next_timeout j limit current timeout pre r.online ≡ timeout
unfolding next_timeout
next_timeout-Agrees false limit current timeout pre r a = refl
next_timeout-Agrees true limit current timeout pre r (inl e) = rw e
next_timeout-Agrees true limit current timeout pre r (inr e) = ground arith

attempt-total :
    (p : Result Bool × Lock) (later : Option (Result (Unit {0}) × Lock))
    (q : Result (Unit {0}) × Lock)
    → later ≡ some q
    → (r : Result (Unit {0}) × Lock) × (attempt p later ≡ some r)
unfolding attempt
attempt-total (err e, lk) later q h = ((err e, lk), refl)
attempt-total (ok true, lk) later q h = ((ok tt, lk), refl)
attempt-total (ok false, lk) later q h = (q, h)

Agrees-same_nodes :
    (j : Bool) (pre : List Text) (r r' : Round)
    → (j ≡ false) ⊎ (same_nodes r.online r'.online ≡ true)
    → Agrees j (if j then r.online else pre) r'
Agrees-same_nodes false pre r r' h = tt
Agrees-same_nodes true pre r r' (inl e) = cc
Agrees-same_nodes true pre r r' (inr e) = inr e

module _ (rounds : ℕ → Round) (ticks : Ticks rounds) (limit : ℕ) where
  module _ (lk : Lock) (stable : (lk.for_join ≡ false) ⊎ IsStable rounds) where
    unchanged :
        (i : ℕ)
        → (lk.for_join ≡ false) ⊎ (same_nodes (rounds i).online (rounds (suc i)).online ≡ true)
    unchanged i = elim stable [ inl e ↦ inl e | inr h ↦ inr (h i) ]

    -- While the online nodes do not change, one round for each second up to the timeout, and one
    -- more, are enough.
    wait_loop-ends :
        (fuel i current timeout : ℕ) (pre : List Text)
        → current < (rounds i).now
        → Agrees lk.for_join pre (rounds i)
        → 0 < fuel
        → timeout + 1 < current + fuel
        → (r : Result (Unit {0}) × Lock) × (wait_loop fuel rounds limit i current timeout pre lk
            ≡ some r)
    unfolding wait_loop
    wait_loop-ends zero i current timeout pre t a pos enough = absurd (omega arith)
    wait_loop-ends (suc f) i current timeout pre t a pos enough =
        elim (Bool-cases (leb current timeout)) [
          | inr late ↦ ((err claim_lock_error, lk), rw late)
          | inl inside ↦
              let (q, e) =
                wait_loop-ends f (suc i) (rounds i).now timeout
                  (if lk.for_join then (rounds i).online else pre) (ticks i)
                  (Agrees-same_nodes lk.for_join pre (rounds i) (rounds (suc i)) (unchanged i))
                  (omega (arith, leb→le current timeout inside))
                  (omega (arith, leb→le current timeout inside)) in
              rw inside (
                attempt-total (create_remote_lock_dir (rounds i).rc lk) _ q
                  (rw (next_timeout-Agrees lk.for_join limit current timeout pre (rounds i) a) e))
        ]

-- The loop of `_lock_or_wait` ends, with the lock, with a failed ssh or with a timeout, if the
-- setting is valid, the clock moves on in each round and the online nodes do not change (or the
-- lock is not for a join): a fuel of two more than the seconds of the timeout is enough.
pub lock_or_wait-ends :
    (rounds : ℕ → Round) (setting : Option ℕ) (start limit : ℕ) (lk : Lock)
    → Ticks rounds
    → start < (rounds 0).now
    → (lk.for_join ≡ false) ⊎ IsStable rounds
    → lock_timeout setting ≡ ok limit
    → (r : Result (Unit {0}) × Lock) × (lock_or_wait (suc (suc limit)) rounds setting start lk
        ≡ some r)
unfolding lock_or_wait
lock_or_wait-ends rounds setting start limit lk ticks begun stable valid =
    rw (valid, lock_or_wait)
      (wait_loop-ends rounds ticks limit lk stable (suc (suc limit)) 0 start (start + limit) []
        begun (first lk.for_join) (omega arith) (omega arith))
  where
    first : (j : Bool) → Agrees j [] (rounds 0)
    first false = tt
    first true = inl refl
