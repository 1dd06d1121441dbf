-- ===== src/Context/Trail.antt =====
-- What the words of a line mean in crmsh/ui_context.py, apart from the loop that reads them.
use crmsh.Prelude.{
  ℕ, ◌≡◌, refl, sym, ap, ◌∙◌, true, false, not, ◌&&◌, none, some, List, [], ◌∷◌, ◌++◌, append_assoc,
  subst, Text, Bool-cases, Option-cases, inl, inr,
}
use crmsh.Context.Cursor.{
  Target, level, command, Child, Ctx, returned, Ui, stack, is_functional, enter_level,
}
use crmsh.Context.Run.{Walk, at_command, at_level, fatal, after_entering, visit, take_token, walk}

-- What a line comes to: a level, an error, or a command with its arguments.
pub data End (Level : Type 0) : Type 0 where
  reached : End Level
  failed : End Level
  commanded : Child Level → ℕ → List Text → End Level

-- A line read from a level on: the levels that it enters, the last one first, and its end.
pub data Trail {Level : Type 0} (u : Ui Level)
    : Level → List Text → List Level → End Level → Type 0 where
  stop : (l : Level) → Trail u l [] [] reached
  unknown :
      (l : Level) (t : Text) (ts : List Text)
      → u.get_child l t ≡ none
      → Trail u l (t ∷ ts) [] failed
  refused :
      (l entry : Level) (t : Text) (ts : List Text) (info : Child Level)
      → u.get_child l t ≡ some info
      → info.target ≡ level entry
      → (is_functional info.name ts && not (u.requires entry)) ≡ true
      → Trail u l (t ∷ ts) [] failed
  enter :
      (l entry : Level) (t : Text) (ts : List Text) (info : Child Level) (levels : List Level)
      (end : End Level)
      → u.get_child l t ≡ some info
      → info.target ≡ level entry
      → (is_functional info.name ts && not (u.requires entry)) ≡ false
      → Trail u entry ts levels end
      → Trail u l (t ∷ ts) (levels ++ entry ∷ []) end
  invoke :
      (l : Level) (t : Text) (ts : List Text) (info : Child Level) (f : ℕ)
      → u.get_child l t ≡ some info
      → info.target ≡ command f
      → Trail u l (t ∷ ts) [] (commanded info f ts)

module _ {Level : Type 0} (u : Ui Level) where
  -- The levels have been entered, and nothing else is new on the stack.
  pub record Reached (levels : List Level) (c d : Ctx Level) : Type 0 where
    pub grows : stack d ≡ levels ++ stack c
    pub same_mark : d.mark ≡ c.mark
    pub same_wait : d.wait_for_dc ≡ c.wait_for_dc

  abbrev pub Arrived : End Level → List Level → Ctx Level → Walk Level → Type 0
  Arrived reached levels c w = (d : Ctx Level) × (w ≡ at_level d) × Reached levels c d
  Arrived failed levels c w = (d : Ctx Level) × (w ≡ fatal d) × Reached levels c d
  Arrived (commanded info f args) levels c w =
      (d : Ctx Level) × (w ≡ at_command info f d) × (d.command_args ≡ args) × Reached levels c d

  -- A level below those that follow.
  Reached-below :
      (levels : List Level) (entry : Level) (c c1 d : Ctx Level)
      → stack c1 ≡ entry ∷ stack c
      → c1.mark ≡ c.mark
      → c1.wait_for_dc ≡ c.wait_for_dc
      → Reached levels c1 d
      → Reached (levels ++ entry ∷ []) c d
  Reached-below levels entry c c1 d s m w r = record {
    grows = r.grows ∙ ap (λ x. levels ++ x) s ∙ sym (append_assoc levels (entry ∷ []) (stack c));
    same_mark = r.same_mark ∙ m;
    same_wait = r.same_wait ∙ w;
  }

  Arrived-below :
      (end : End Level) (levels : List Level) (entry : Level) (c c1 : Ctx Level) (w : Walk Level)
      → stack c1 ≡ entry ∷ stack c
      → c1.mark ≡ c.mark
      → c1.wait_for_dc ≡ c.wait_for_dc
      → Arrived end levels c1 w
      → Arrived end (levels ++ entry ∷ []) c w
  Arrived-below reached levels entry c c1 w s m q (d, e, r) =
      (d, e, Reached-below levels entry c c1 d s m q r)
  Arrived-below failed levels entry c c1 w s m q (d, e, r) =
      (d, e, Reached-below levels entry c c1 d s m q r)
  Arrived-below (commanded info f args) levels entry c c1 w s m q (d, e, a, r) =
      (d, e, a, Reached-below levels entry c c1 d s m q r)

  -- The loop over the words goes along a trail.
  abbrev pub Followed : List Text → Ctx Level → Walk Level → Type 0
  Followed ts c w =
      (levels : List Level) × (end : End Level) × Trail u c.current ts levels end
      × Arrived end levels c w

  -- The context in which a child is looked at.
  abbrev looking : Child Level → List Text → Ctx Level → Ctx Level
  looking info ts c = record c {
    command_name = info.name;
    command_args = ts;
    command_info = some info;
  }

  enter_level_fine :
      (entry : Level) (c : Ctx Level)
      → (is_functional c.command_name c.command_args && not (u.requires entry)) ≡ false
      → (c1 : Ctx Level) × (enter_level u entry c ≡ (returned true, c1))
        × (c1.current ≡ entry)
        × (stack c1 ≡ entry ∷ stack c)
        × (c1.mark ≡ c.mark)
        × (c1.wait_for_dc ≡ c.wait_for_dc)
  unfolding enter_level
  enter_level_fine entry c fine = (
    (enter_level u entry c).1,
    rw fine refl,
    rw fine refl,
    rw fine refl,
    rw fine refl,
    rw fine refl,
  )

  visit-Followed :
      (target : Target Level) (t : Text) (ts : List Text) (info : Child Level) (c : Ctx Level)
      → u.get_child c.current t ≡ some info
      → info.target ≡ target
      → ((d : Ctx Level) → Followed ts d (walk u ts d))
      → Followed (t ∷ ts) c (visit u target info (walk u ts) (looking info ts c))
  unfolding visit after_entering enter_level
  visit-Followed (command f) t ts info c e k rest = (
    [],
    commanded info f ts,
    invoke c.current t ts info f e k,
    (looking info ts c, refl, refl, record { grows = refl; same_mark = refl; same_wait = refl }),
  )
  visit-Followed (level entry) t ts info c e k rest =
      elim (Bool-cases (is_functional info.name ts && not (u.requires entry))) [
        | inl bad ↦ (
          [],
          failed,
          refused c.current entry t ts info e k bad,
          rw bad (_, refl, record { grows = refl; same_mark = refl; same_wait = refl }),
        )
        | inr fine ↦
            (let (c1, q, cur, st, mk, wt) = enter_level_fine entry (looking info ts c) fine in
              let (levels, end, trail, there) = rest c1 in
              (
                levels ++ entry ∷ [],
                end,
                enter c.current entry t ts info levels end e k fine
                    (subst (λ l. Trail u l ts levels end) cur trail),
                subst (λ z. Arrived end (levels ++ entry ∷ []) c (after_entering u z (walk u ts)))
                    (sym q) (Arrived-below end levels entry c c1 (walk u ts c1) st mk wt there),
              ))
      ]

  take_token-Followed :
      (t : Text) (ts : List Text) (c : Ctx Level)
      → ((d : Ctx Level) → Followed ts d (walk u ts d))
      → Followed (t ∷ ts) c (take_token u (u.get_child c.current t) t ts (walk u ts) c)
  unfolding take_token
  take_token-Followed t ts c rest = elim (Option-cases (u.get_child c.current t)) [
    | inl e ↦ (
      [],
      failed,
      unknown c.current t ts e,
      (
        record c { command_name = t; command_args = ts; command_info = none },
        rw e refl,
        record { grows = refl; same_mark = refl; same_wait = refl },
      ),
    )
    | inr (info, e) ↦ rw e (visit-Followed info.target t ts info c e refl rest)
  ]

  pub walk-Followed : (ts : List Text) (c : Ctx Level) → Followed ts c (walk u ts c)
  unfolding walk
  walk-Followed [] c = (
    [],
    reached,
    stop c.current,
    (c, refl, record { grows = refl; same_mark = refl; same_wait = refl }),
  )
  walk-Followed (t ∷ ts) c = take_token-Followed t ts c (walk-Followed ts)
