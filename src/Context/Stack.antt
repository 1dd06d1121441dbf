-- ===== src/Context/Stack.antt =====
-- What `_back_out` leaves of the stack of levels in crmsh/ui_context.py.
use crmsh.Prelude.{
  ℕ, suc, ◌<◌, ◌≡◌, refl, ◌∙◌, Bool, true, ◌&&◌, List, [], ◌∷◌, ◌++◌, arith, ltb, length,
  if◌then◌else◌, Bool-cases, inl, inr, length-append,
}
use crmsh.Context.Cursor.{Ctx, Ui, depth, stack, up, pop_level, back_out_loop, back_out}

-- A stack without the levels above its first `n`.
unfoldable pub trim {ℓ} : {A : Type ℓ} → ℕ → List A → List A
trim n [] = []
trim n (x ∷ xs) = let rest = trim n xs in if ltb n (suc (length xs)) then rest else x ∷ xs

module _ {Level : Type 0} (u : Ui Level) where
  back_out_loop-trim :
      (c : Ctx Level) (cur : Level) (ls : List Level) (ok : Bool)
      → 0 < c.mark
      → stack (back_out_loop u ls ok (record c { current = cur; below = ls })).1
        ≡ trim c.mark (cur ∷ ls)
  unfolding back_out_loop up trim
  back_out_loop-trim c cur [] ok pos = ground arith
  back_out_loop-trim c cur (l ∷ ls) ok pos =
      elim (Bool-cases (ltb c.mark (suc (suc (length ls))))) [
        | inl on ↦
            let positive : ltb 0 c.mark ≡ true = ground arith in
            rw (positive, on) (back_out_loop-trim c l ls _ pos)
        | inr off ↦ let positive : ltb 0 c.mark ≡ true = ground arith in rw (positive, off) refl
      ]

  pub back_out-trim : (c : Ctx Level) → 0 < c.mark → stack (back_out u c).1 ≡ trim c.mark (stack c)
  unfolding back_out
  back_out-trim c pos = back_out_loop-trim c c.current c.below true pos

  wait-pop_level :
      (c : Ctx Level) (ls : List Level) → (pop_level u c ls).1.wait_for_dc ≡ c.wait_for_dc
  unfolding pop_level
  wait-pop_level c [] = refl
  wait-pop_level c (l ∷ ls) = refl

  wait-back_out_loop :
      (ls : List Level) (ok : Bool) (c : Ctx Level)
      → (back_out_loop u ls ok c).1.wait_for_dc ≡ c.wait_for_dc
  unfolding back_out_loop up
  wait-back_out_loop [] ok c = refl
  wait-back_out_loop (l ∷ ls) ok c = elim (Bool-cases (ltb 0 c.mark && ltb c.mark (depth c))) [
    | inl on ↦ rw on (wait-back_out_loop ls _ (up u c).1 ∙ wait-pop_level c c.below)
    | inr off ↦ rw off
  ]

  pub wait-back_out : (c : Ctx Level) → (back_out u c).1.wait_for_dc ≡ c.wait_for_dc
  unfolding back_out
  wait-back_out c = wait-back_out_loop c.below true c

-- A whole stack under some levels.
pub trim-append {ℓ} :
    {A : Type ℓ} (levels base : List A) → trim (length base) (levels ++ base) ≡ base
unfolding trim
trim-append [] [] = refl
trim-append [] (x ∷ base) = ground arith
trim-append (l ∷ levels) base =
    let above : ltb (length base) (suc (length (levels ++ base))) ≡ true =
      ground (arith, length-append levels base) in
    rw above (trim-append levels base)
