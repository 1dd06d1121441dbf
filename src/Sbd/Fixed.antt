-- ===== src/Sbd/Fixed.antt =====
-- Which runs of `check_and_fix` of crmsh/sbd.py with fixes return, and what has happened in them.
use crmsh.Prelude.{
  ℕ, zero, suc, ◌≡◌, ◌⊎◌, ◌↔◌, refl, sym, ap, ◌∙◌, subst, Bool, true, false, not, ◌&&◌, List, [],
  ◌∷◌, arith, Bool-cases, inl, inr,
}
use crmsh.Sbd.Checker.{
  CheckResult, success, warning, error, is_success, all_success, return_helper, set_at, result_of,
  is_blocked, Checker, Ending, returned, fix_aborted, fix_failure, check_and_fix_items, all_fine,
  recheck, after_check, run_item, and_then, run_items, check_and_fix,
}

is_success-eq : (r : CheckResult) → is_success r ≡ true → r ≡ success
is_success-eq success h = refl
is_success-eq warning h = cc
is_success-eq error h = cc

all_success-set_at :
    (i : ℕ) (rs : List CheckResult)
    → all_success rs ≡ true
    → all_success (set_at i success rs) ≡ true
unfolding all_success set_at
all_success-set_at i [] h = refl
all_success-set_at zero (r ∷ rs) h = ground arith
all_success-set_at (suc i) (r ∷ rs) h = ground (arith, all_success-set_at i rs)

result_of-success :
    (i : ℕ) (rs : List CheckResult) → all_success rs ≡ true → is_success (result_of i rs) ≡ true
unfolding all_success result_of
result_of-success i [] h = refl
result_of-success zero (r ∷ rs) h = ground arith
result_of-success (suc i) (r ∷ rs) h = ground (arith, result_of-success i rs)

is_blocked-success :
    (rs : List CheckResult) (ps : List ℕ) → all_success rs ≡ true → is_blocked rs ps ≡ false
unfolding is_blocked
is_blocked-success rs [] h = refl
is_blocked-success rs (p ∷ ps) h = rw (result_of-success p rs h, is_blocked-success rs ps h)

-- The items from number `i` on have passed, one after the other, between two states: the check of
-- each has succeeded in its turn, or it has failed, could be fixed, and has succeeded in the state
-- that its fix and the loading of the configuration gave.
pub data Passed {State : Type 0} (c : Checker State) (reachable : Bool)
    : List (Bool × List ℕ) → ℕ → State → State → Type 0 where
  done : (i : ℕ) (v : State) → Passed c reachable [] i v v
  fine :
      (ssh : Bool) (ps : List ℕ) (items : List (Bool × List ℕ)) (i : ℕ) (v v' w : State)
      → c.check i v ≡ (success, v')
      → Passed c reachable items (suc i) v' w
      → Passed c reachable ((ssh, ps) ∷ items) i v w
  mended :
      (ssh : Bool) (ps : List ℕ) (items : List (Bool × List ℕ)) (i : ℕ) (v v' w : State)
      → is_success (c.check i v).0 ≡ false
      → (ssh && not reachable) ≡ false
      → c.check i (c.load (c.fix_method i (c.check i v).1)) ≡ (success, v')
      → Passed c reachable items (suc i) v' w
      → Passed c reachable ((ssh, ps) ∷ items) i v w

module _ {State : Type 0} (c : Checker State) (reachable : Bool) where
  -- A run that fixes gives each item the result of success, or ends.
  recheck-fixed :
      (p : CheckResult × State) (r : CheckResult) (w : State)
      → recheck c true reachable p ≡ returned r w
      → (r ≡ success) × (p ≡ (success, w))
  unfolding recheck
  recheck-fixed (success, v) r w h = (cc, cc)
  recheck-fixed (warning, v) r w h = cc
  recheck-fixed (error, v) r w h = cc

  -- A chain that returns has returned in its first part.
  and_then-returned :
      {A B : Type 0} (q : Ending A State) (next : A → State → Ending B State) (b : B) (w : State)
      → and_then c true reachable q next ≡ returned b w
      → (a : A) × (v : State) × (q ≡ returned a v) × (next a v ≡ returned b w)
  unfolding and_then
  and_then-returned (returned a v) next b w h = (a, v, refl, h)
  and_then-returned (fix_aborted v) next b w h = cc
  and_then-returned (fix_failure v) next b w h = cc

  -- One item has passed.
  abbrev Step : ℕ → Bool → State → State → Type 0
  Step i ssh v w =
      (c.check i v ≡ (success, w))
      ⊎ ((is_success (c.check i v).0 ≡ false)
          × ((ssh && not reachable) ≡ false)
          × (c.check i (c.load (c.fix_method i (c.check i v).1)) ≡ (success, w)))

  Step-Passed :
      (ssh : Bool) (ps : List ℕ) (items : List (Bool × List ℕ)) (i : ℕ) (v v' w : State)
      → Step i ssh v v'
      → Passed c reachable items (suc i) v' w
      → Passed c reachable ((ssh, ps) ∷ items) i v w
  Step-Passed ssh ps items i v v' w (inl e) rest = fine ssh ps items i v v' w e rest
  Step-Passed ssh ps items i v v' w (inr (bad, there, e)) rest =
      mended ssh ps items i v v' w bad there e rest

  -- One round, when all results so far are successes.
  run_item-Step :
      (i : ℕ) (ssh : Bool) (rs : List CheckResult) (ps : List ℕ) (v w : State) (r : CheckResult)
      → all_success rs ≡ true
      → run_item c true reachable i ssh (is_blocked rs ps) v ≡ returned r w
      → (r ≡ success) × Step i ssh v w
  unfolding run_item after_check
  run_item-Step i ssh rs ps v w r a h0 =
      let h : after_check c true reachable i ssh (c.check i v) ≡ returned r w =
        rw (is_blocked-success rs ps a) at h0 in
      elim (Bool-cases (is_success (c.check i v).0)) [
        | inl good ↦
            let e : returned (c.check i v).0 (c.check i v).1 ≡ returned r w = rw good at h in
            let found = is_success-eq (c.check i v).0 good in (cc, inl cc)
        | inr bad ↦ elim (Bool-cases (ssh && not reachable)) [
          | inl lost ↦ cc (rw (bad, lost) at h)
          | inr there ↦
              let v' = c.load (c.fix_method i (c.check i v).1) in
              let (e, e') = recheck-fixed (c.check i v') r w (rw (bad, there) at h) in
              (e, inr (bad, there, e'))
        ]
      ]

  Step-run_item :
      (i : ℕ) (ssh : Bool) (rs : List CheckResult) (ps : List ℕ) (v w : State)
      → all_success rs ≡ true
      → Step i ssh v w
      → run_item c true reachable i ssh (is_blocked rs ps) v ≡ returned success w
  unfolding run_item after_check recheck
  Step-run_item i ssh rs ps v w a (inl e) = rw (is_blocked-success rs ps a, e) refl
  Step-run_item i ssh rs ps v w a (inr (bad, there, e)) =
      rw (is_blocked-success rs ps a, bad, there, e) refl

  run_items-Passed :
      (items : List (Bool × List ℕ)) (i : ℕ) (rs rs' : List CheckResult) (v w : State)
      → all_success rs ≡ true
      → run_items c true reachable items i rs v ≡ returned rs' w
      → (all_success rs' ≡ true) × Passed c reachable items i v w
  unfolding run_items
  run_items-Passed [] i rs rs' v w a h =
      let same_results : rs ≡ rs' = cc in
      let same_state : v ≡ w = cc in
      (
        ap all_success (sym same_results) ∙ a,
        subst (λ x. Passed c reachable [] i v x) same_state (done i v),
      )
  run_items-Passed ((ssh, ps) ∷ items) i rs rs' v w a h =
      let (r, v', e, h') =
        and_then-returned (run_item c true reachable i ssh (is_blocked rs ps) v) _ rs' w h in
      let (found, step) = run_item-Step i ssh rs ps v v' r a e in
      let a' =
        subst (λ x. all_success (set_at i x rs) ≡ true) (sym found) (all_success-set_at i rs a) in
      let (all, rest) = run_items-Passed items (suc i) (set_at i r rs) rs' v' w a' h' in
      (all, Step-Passed ssh ps items i v v' w step rest)

  -- The results behind items that have all passed.
  Fine : List (Bool × List ℕ) → ℕ → List CheckResult → State → State → Type 0
  Fine items i rs v w =
      (rs' : List CheckResult) × (all_success rs' ≡ true)
      × (run_items c true reachable items i rs v ≡ returned rs' w)

  Step-Fine :
      (ssh : Bool) (ps : List ℕ) (items : List (Bool × List ℕ)) (i : ℕ) (rs : List CheckResult)
      (v v' w : State)
      → all_success rs ≡ true
      → Step i ssh v v'
      → Fine items (suc i) (set_at i success rs) v' w
      → Fine ((ssh, ps) ∷ items) i rs v w
  unfolding run_items and_then Fine
  Step-Fine ssh ps items i rs v v' w a step (rs', all, e) =
      (rs', all, rw (Step-run_item i ssh rs ps v v' a step) e)

  Passed-Fine :
      (items : List (Bool × List ℕ)) (i : ℕ) (rs : List CheckResult) (v w : State)
      → all_success rs ≡ true
      → Passed c reachable items i v w
      → Fine items i rs v w
  unfolding run_items Fine
  Passed-Fine items i rs v w a (done _ _) = (rs, a, refl)
  Passed-Fine items i rs v w a (fine ssh ps rest _ _ v' _ e p) =
      Step-Fine ssh ps rest i rs v v' w a (inl e)
        (Passed-Fine rest (suc i) (set_at i success rs) v' w (all_success-set_at i rs a) p)
  Passed-Fine items i rs v w a (mended ssh ps rest _ _ v' _ bad there e p) =
      Step-Fine ssh ps rest i rs v v' w a (inr (bad, there, e))
        (Passed-Fine rest (suc i) (set_at i success rs) v' w (all_success-set_at i rs a) p)

  -- A run of `check_and_fix` with fixes returns exactly if the service is active, the configuration
  -- is the same on all nodes, and, from the loading of the configuration on, the twelve checks pass
  -- in their order: each succeeds in its turn, or fails and succeeds after its own fix and a new
  -- loading, where a fix that requires ssh is reached only if ssh works. The answer is then success,
  -- and the state is that behind the last of these checks.
  pub check_and_fix-Passed :
      (active configured consistent : Bool) (v w : State) (r : CheckResult)
      → (check_and_fix c true reachable active configured consistent v ≡ returned r w) ↔ (
          (r ≡ success)
          × (active ≡ true)
          × (consistent ≡ true)
          × Passed c reachable check_and_fix_items 0 (c.load v) w)
  unfolding check_and_fix return_helper all_success all_fine and_then Fine
  check_and_fix-Passed false configured consistent v w r =
      (λ h. cc, λ (e, off, same_files, rest). cc)
  check_and_fix-Passed true configured false v w r = (λ h. cc, λ (e, on, differ, rest). cc)
  check_and_fix-Passed true configured true v w r = (
    λ h.
        let (rs, w', e, h') =
          and_then-returned (run_items c true reachable check_and_fix_items 0 _ (c.load v)) _ r w
            h in
        let (all, passed) =
          run_items-Passed check_and_fix_items 0 (all_fine check_and_fix_items) rs (c.load v) w'
            refl e in
        let back : return_helper rs ≡ success = rw all in
        let same_state : w' ≡ w = cc in
        (
          cc,
          refl,
          refl,
          subst (λ x. Passed c reachable check_and_fix_items 0 (c.load v) x) same_state passed,
        ),
    λ (e, on, match, passed).
        let (rs, all, ran) =
          Passed-Fine check_and_fix_items 0 (all_fine check_and_fix_items) (c.load v) w refl
            passed in
        rw (ran, all) (ap (λ x. returned x w) (sym e)),
  )
