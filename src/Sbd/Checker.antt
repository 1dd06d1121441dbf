-- ===== src/Sbd/Checker.antt =====
-- `SBDConfigChecker.check_and_fix` of crmsh/sbd.py: the checks in their order, with their fixes.
--
-- The checks, the fixes and the reading of the configuration act on the cluster and on the fields of
-- the object: they are the record `Checker` over a type of states. A check is named by its index.
use crmsh.Prelude.{ℕ, zero, suc, Bool, true, false, not, ◌&&◌, ◌||◌, List, [], ◌∷◌, if◌then◌else◌}

pub data CheckResult : Type 0 where
  success warning error : CheckResult

abbrev pub is_success : CheckResult → Bool
is_success success = true
is_success warning = false
is_success error = false

abbrev pub is_error : CheckResult → Bool
is_error success = false
is_error warning = false
is_error error = true

unfoldable pub all_success : List CheckResult → Bool
all_success [] = true
all_success (r ∷ rs) = is_success r && all_success rs

unfoldable pub any_error : List CheckResult → Bool
any_error [] = false
any_error (r ∷ rs) = is_error r || any_error rs

-- `_return_helper`
unfoldable pub return_helper : List CheckResult → CheckResult
return_helper rs = if all_success rs then success else if any_error rs then error else warning

-- `check_res_list[index] = r`
unfoldable pub set_at : ℕ → CheckResult → List CheckResult → List CheckResult
set_at i r [] = []
set_at zero r (x ∷ rs) = r ∷ rs
set_at (suc i) r (x ∷ rs) = x ∷ set_at i r rs

-- `check_res_list[p.value]`; every item of `SBDCheckItem` is in the list.
unfoldable pub result_of : ℕ → List CheckResult → CheckResult
result_of i [] = success
result_of zero (r ∷ rs) = r
result_of (suc i) (r ∷ rs) = result_of i rs

-- `any(check_res_list[p.value] != CheckResult.SUCCESS for p in prereq_checks)`
unfoldable pub is_blocked : List CheckResult → List ℕ → Bool
is_blocked rs [] = false
is_blocked rs (p ∷ ps) = not (is_success (result_of p rs)) || is_blocked rs ps

pub record Checker (State : Type 0) : Type 0 where
  pub check : ℕ → State → CheckResult × State
  pub fix_method : ℕ → State → State
  -- `_load_configurations_from_runtime`
  pub load : State → State

-- How one item ends, and how the whole does: with a result, `FixAborted` or `FixFailure`.
pub data Ending (Value State : Type 0) : Type 0 where
  returned : Value → State → Ending Value State
  fix_aborted : State → Ending Value State
  fix_failure : State → Ending Value State

-- `_check_and_fix_items`: whether ssh is required, and the prerequisites.
abbrev pub check_and_fix_items : List (Bool × List ℕ)
check_and_fix_items =
    (true, [])
    ∷ (true, 0 ∷ [])
    ∷ (true, [])
    ∷ (false, [])
    ∷ (false, 3 ∷ [])
    ∷ (true, 0 ∷ 2 ∷ 4 ∷ [])
    ∷ (true, 5 ∷ [])
    ∷ (false, 2 ∷ [])
    ∷ (false, 0 ∷ 2 ∷ [])
    ∷ (false, [])
    ∷ (true, [])
    ∷ (true, [])
    ∷ []

-- `[CheckResult.SUCCESS for _ in range(len(check_and_fix_items))]`
unfoldable pub all_fine : List (Bool × List ℕ) → List CheckResult
all_fine [] = []
all_fine (x ∷ items) = success ∷ all_fine items

module _ {State : Type 0} (c : Checker State) (fix reachable : Bool) where
  -- After the fix.
  unfoldable pub recheck : CheckResult × State → Ending CheckResult State
  recheck (r, w) = if is_success r then returned r w else fix_failure w

  -- After the check of item `i`.
  unfoldable pub after_check : ℕ → Bool → CheckResult × State → Ending CheckResult State
  unfolding recheck
  after_check i ssh_required (r, w) =
      if is_success r
      then returned r w
      else if ssh_required && not reachable
      then fix_aborted w
      else if fix
      then recheck (c.check i (c.load (c.fix_method i w)))
      else returned r w

  -- One round of the loop.
  unfoldable pub run_item : ℕ → Bool → Bool → State → Ending CheckResult State
  unfolding after_check
  run_item i ssh_required blocked w =
      if blocked then returned error w else after_check i ssh_required (c.check i w)

  unfoldable pub and_then :
      {A B : Type 0} → Ending A State → (A → State → Ending B State) → Ending B State
  and_then (returned r w) next = next r w
  and_then (fix_aborted w) next = fix_aborted w
  and_then (fix_failure w) next = fix_failure w

  -- The loop from item `i` on.
  unfoldable pub run_items :
      List (Bool × List ℕ) → ℕ → List CheckResult → State → Ending (List CheckResult) State
  unfolding run_item and_then
  run_items [] i rs w = returned rs w
  run_items ((ssh_required, prereq_checks) ∷ items) i rs w =
      and_then (run_item i ssh_required (is_blocked rs prereq_checks) w)
        (λ r w'. run_items items (suc i) (set_at i r rs) w')

  -- `check_and_fix`, with what it finds first: whether the service is active, whether SBD is
  -- configured, and whether the configuration is the same on all nodes.
  unfoldable pub check_and_fix : Bool → Bool → Bool → State → Ending CheckResult State
  unfolding run_items
  check_and_fix active configured consistent w =
      if not active && (fix || not configured)
      then fix_aborted w
      else if not consistent
      then fix_aborted w
      else and_then (run_items check_and_fix_items 0 (all_fine check_and_fix_items) (c.load w))
          (λ rs w'. returned (return_helper rs) w')
