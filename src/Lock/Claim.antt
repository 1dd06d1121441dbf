-- ===== src/Lock/Claim.antt =====
-- The classes `Lock` and `RemoteLock` of crmsh/lock.py.
--
-- What the commands and the cluster answer comes from outside: the return code of each `mkdir`, the
-- list of online nodes and the clock are given for each round of the waiting loop. A setting
-- `core.lock_timeout` that `int` refuses is `none`; a negative one acts as 0 does.
use crmsh.Prelude.{
  ℕ, zero, suc, ◌+◌, Bool, true, false, not, ◌&&◌, Option, none, some, List, [], ◌∷◌, ◌==◌, ltb,
  leb, if◌then◌else◌, Text, same, is_empty,
}

pub data Error : Type 0 where
  claim_lock_error ssh_error value_error : Error

pub data Result {ℓ} (A : Type ℓ) : Type ℓ where
  ok : A → Result A
  err : Error → Result A

-- The object's fields: what `__init__` was given, and `lock_owner`.
pub record Lock : Type 0 where
  pub lock_owner : Bool
  pub for_join : Bool
  pub wait : Bool

-- `__init__`
abbrev pub init : Bool → Bool → Lock
init for_join wait = record { lock_owner = false; for_join = for_join; wait = wait }

-- `SSH_EXIT_ERR`, `MIN_LOCK_TIMEOUT`
abbrev pub ssh_exit_err : ℕ
ssh_exit_err = 255

abbrev pub min_lock_timeout : ℕ
min_lock_timeout = 120

-- `_create_lock_dir`, with the return code of `mkdir`.
unfoldable pub create_lock_dir : ℕ → Lock → Bool × Lock
create_lock_dir rc lk = if rc == 0 then (true, record lk { lock_owner = true }) else (false, lk)

-- The same through `RemoteLock._run`, which raises when ssh failed.
unfoldable pub create_remote_lock_dir : ℕ → Lock → Result Bool × Lock
unfolding create_lock_dir
create_remote_lock_dir rc lk =
    if rc == ssh_exit_err
    then (err ssh_error, lk)
    else (let (made, lk') = create_lock_dir rc lk in (ok made, lk'))

-- `_lock_or_fail`
unfoldable pub lock_or_fail : ℕ → Lock → Result (Unit {0}) × Lock
unfolding create_lock_dir
lock_or_fail rc lk =
    let (made, lk') = create_lock_dir rc lk in
    if made then (ok tt, lk') else (err claim_lock_error, lk')

-- `lock_timeout`
unfoldable pub lock_timeout : Option ℕ → Result ℕ
lock_timeout none = err value_error
lock_timeout (some value) = if ltb value min_lock_timeout then err value_error else ok value

-- What one round of the loop sees: the return code of `mkdir`, the online nodes, and the clock after
-- the sleep.
pub record Round : Type 0 where
  pub rc : ℕ
  pub online : List Text
  pub now : ℕ

unfoldable pub same_nodes : List Text → List Text → Bool
same_nodes [] [] = true
same_nodes (x ∷ xs) (y ∷ ys) = same x y && same_nodes xs ys
same_nodes _ _ = false

-- `timeout` after the online nodes were read.
unfoldable pub next_timeout : Bool → ℕ → ℕ → ℕ → List Text → List Text → ℕ
next_timeout for_join limit current timeout pre online =
    if for_join && not (is_empty pre) && not (same_nodes pre online)
    then current + limit
    else timeout

-- What follows an attempt: an exception, the `break`, or the rest of the loop.
unfoldable pub attempt :
    Result Bool × Lock → Option (Result (Unit {0}) × Lock) → Option (Result (Unit {0}) × Lock)
attempt (err e, lk) later = some (err e, lk)
attempt (ok made, lk) later = if made then some (ok tt, lk) else later

-- The `while` loop of `_lock_or_wait` from round `i` on; `none` is the end of the fuel.
unfoldable pub wait_loop :
    ℕ → (ℕ → Round) → ℕ → ℕ → ℕ → ℕ → List Text → Lock → Option (Result (Unit {0}) × Lock)
wait_loop zero rounds limit i current timeout pre lk = none
wait_loop (suc fuel) rounds limit i current timeout pre lk =
    let round = rounds i in
    let later =
      wait_loop fuel rounds limit (suc i) round.now
        (next_timeout lk.for_join limit current timeout pre round.online)
        (if lk.for_join then round.online else pre) lk in
    if leb current timeout
    then attempt (create_remote_lock_dir round.rc lk) later
    else some (err claim_lock_error, lk)

-- `_lock_or_wait`, begun at the time `start`.
unfoldable pub lock_or_wait :
    ℕ → (ℕ → Round) → Option ℕ → ℕ → Lock → Option (Result (Unit {0}) × Lock)
lock_or_wait fuel rounds setting start lk = elim (lock_timeout setting) [
  | err e ↦ some (err e, lk)
  | ok limit ↦ wait_loop fuel rounds limit 0 start (start + limit) [] lk
]

-- `_unlock`: whether the lock directory is removed.
unfoldable pub unlock : Lock → Bool
unlock lk = lk.lock_owner

-- The `try` and the `finally` of `lock` around a body, after the lock was claimed or not: the
-- outcome, the object, and whether the directory is removed in the end.
unfoldable pub around :
    Result (Unit {0}) × Lock → Result (Unit {0}) → Result (Unit {0}) × Lock × Bool
unfolding unlock
around (err e, lk) body = (err e, lk, unlock lk)
around (ok _, lk) body = (body, lk, unlock lk)

-- `Lock.lock`
unfoldable pub lock_local : ℕ → Result (Unit {0}) → Lock → Result (Unit {0}) × Lock × Bool
unfolding lock_or_fail around
lock_local rc body lk = around (lock_or_fail rc lk) body

-- `_lock_or_fail` through `RemoteLock._run`: the error is raised where the directory was not made.
unfoldable pub fail_unless_made : Result Bool × Lock → Result (Unit {0}) × Lock
fail_unless_made (err e, lk) = (err e, lk)
fail_unless_made (ok true, lk) = (ok tt, lk)
fail_unless_made (ok false, lk) = (err claim_lock_error, lk)

unfoldable pub remote_lock_or_fail : ℕ → Lock → Result (Unit {0}) × Lock
unfolding create_remote_lock_dir fail_unless_made
remote_lock_or_fail rc lk = fail_unless_made (create_remote_lock_dir rc lk)

-- The `finally` of `RemoteLock.lock`, with the return code of `rm`, which runs if the object owns the
-- lock: a failed ssh takes the place of the outcome.
unfoldable pub remote_release : ℕ → Result (Unit {0}) → Lock → Result (Unit {0}) × Lock × Bool
unfolding unlock
remote_release rm_rc outcome lk =
    if unlock lk
    then (if rm_rc == ssh_exit_err then err ssh_error else outcome, lk, true)
    else (outcome, lk, false)

unfoldable pub remote_around :
    ℕ → Result (Unit {0}) → Result (Unit {0}) × Lock → Result (Unit {0}) × Lock × Bool
unfolding remote_release
remote_around rm_rc body (err e, lk) = remote_release rm_rc (err e) lk
remote_around rm_rc body (ok _, lk) = remote_release rm_rc body lk

-- The claim of `RemoteLock.lock`, with or without waiting.
unfoldable pub remote_claim :
    ℕ → (ℕ → Round) → Option ℕ → ℕ → ℕ → Lock → Option (Result (Unit {0}) × Lock)
unfolding lock_or_wait remote_lock_or_fail
remote_claim fuel rounds setting start rc lk =
    if lk.wait then lock_or_wait fuel rounds setting start lk else some (remote_lock_or_fail rc lk)

-- `RemoteLock.lock` around a body.
unfoldable pub lock_remote :
    ℕ
    → (ℕ → Round)
    → Option ℕ
    → ℕ
    → ℕ
    → ℕ
    → Result (Unit {0})
    → Lock
    → Option (Result (Unit {0}) × Lock × Bool)
unfolding remote_around
lock_remote fuel rounds setting start rc rm_rc body lk =
    elim (remote_claim fuel rounds setting start rc lk) [
      | none ↦ none
      | some claim ↦ some (remote_around rm_rc body claim)
    ]
