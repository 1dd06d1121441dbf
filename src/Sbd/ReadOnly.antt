-- ===== src/Sbd/ReadOnly.antt =====
-- `check_and_fix` of crmsh/sbd.py without the option to fix.
use crmsh.Prelude.{
  ℕ, suc, ◌≡◌, refl, Bool, true, false, not, ◌&&◌, ◌||◌, List, [], ◌∷◌, Bool-cases, inl, inr,
}
use crmsh.Sbd.Checker.{
  CheckResult, set_at, is_blocked, Checker, Ending, returned, fix_aborted, fix_failure,
  check_and_fix_items, all_fine, after_check, run_item, and_then, run_items, check_and_fix,
  is_success,
}

-- Whether a run has ended in a `FixFailure`.
abbrev pub is_fix_failure : {A State : Type 0} → Ending A State → Bool
is_fix_failure (returned r w) = false
is_fix_failure (fix_aborted w) = false
is_fix_failure (fix_failure w) = true

-- The checker with other fixes.
abbrev pub with_fixes : {State : Type 0} → (ℕ → State → State) → Checker State → Checker State
with_fixes g c = record c { fix_method = g }

module _ {State : Type 0} (c : Checker State) (g : ℕ → State → State) (reachable : Bool) where
  -- Two runs without fixes are the same, and do not end in a `FixFailure`.
  abbrev Agree : {A : Type 0} → Ending A State → Ending A State → Type 0
  Agree p q = (p ≡ q) × (is_fix_failure q ≡ false)

  and_then-Agree :
      {A B : Type 0} (p q : Ending A State) (next next' : A → State → Ending B State)
      → Agree p q
      → ((a : A) (v : State) → Agree (next a v) (next' a v))
      → Agree
          (and_then (with_fixes g c) false reachable p next)
          (and_then c false reachable q next')
  unfolding and_then
  and_then-Agree p (returned a v) next next' (e, ok) h = rw e (h a v)
  and_then-Agree p (fix_aborted v) next next' (e, ok) h = rw e (refl, refl)
  and_then-Agree p (fix_failure v) next next' (e, ok) h = cc

  run_item-Agree :
      (i : ℕ) (ssh blocked : Bool) (v : State)
      → Agree
          (run_item (with_fixes g c) false reachable i ssh blocked v)
          (run_item c false reachable i ssh blocked v)
  unfolding run_item after_check
  run_item-Agree i ssh true v = (refl, refl)
  run_item-Agree i ssh false v = elim (Bool-cases (is_success (c.check i v).0)) [
    | inl good ↦ rw good (refl, refl)
    | inr bad ↦ elim (Bool-cases (ssh && not reachable)) [
      | inl lost ↦ rw (bad, lost) (refl, refl)
      | inr there ↦ rw (bad, there) (refl, refl)
    ]
  ]

  run_items-Agree :
      (items : List (Bool × List ℕ)) (i : ℕ) (rs : List CheckResult) (v : State)
      → Agree
          (run_items (with_fixes g c) false reachable items i rs v)
          (run_items c false reachable items i rs v)
  unfolding run_items
  run_items-Agree [] i rs v = (refl, refl)
  run_items-Agree ((ssh, ps) ∷ items) i rs v =
      and_then-Agree (run_item (with_fixes g c) false reachable i ssh (is_blocked rs ps) v)
        (run_item c false reachable i ssh (is_blocked rs ps) v) _ _
        (run_item-Agree i ssh (is_blocked rs ps) v)
        (λ r w. run_items-Agree items (suc i) (set_at i r rs) w)

  -- A run of `check_and_fix` without the option to fix uses no fix: whatever the methods that fix do,
  -- the run ends in the same way and in the same state. And it does not end in a `FixFailure`.
  pub check_and_fix-with_fixes :
      (active configured consistent : Bool) (v : State)
      → (check_and_fix (with_fixes g c) false reachable active configured consistent v
          ≡ check_and_fix c false reachable active configured consistent v)
        × (is_fix_failure (check_and_fix c false reachable active configured consistent v) ≡ false)
  unfolding check_and_fix
  check_and_fix-with_fixes active configured consistent v =
      elim (Bool-cases (not active && (false || not configured))) [
        | inl off ↦ rw off (refl, refl)
        | inr on ↦ elim (Bool-cases consistent) [
          | inr no_match ↦ rw (on, no_match) (refl, refl)
          | inl match ↦
              rw (on, match)
                (and_then-Agree
                  (run_items (with_fixes g c) false reachable check_and_fix_items 0
                    (all_fine check_and_fix_items) (c.load v))
                  (run_items c false reachable check_and_fix_items 0 (all_fine check_and_fix_items)
                    (c.load v))
                  _ _
                  (run_items-Agree check_and_fix_items 0 (all_fine check_and_fix_items) (c.load v))
                  (λ rs w. (refl, refl)))
        ]
      ]
