-- ===== src/Context/Run.antt =====
-- `Context.run` of crmsh/ui_context.py, from the tokens of the line on.
use crmsh.Prelude.{
  ℕ, Bool, true, false, not, ◌&&◌, Option, none, some, List, [], ◌∷◌, if◌then◌else◌, Text,
}
use crmsh.Context.Cursor.{
  Target, level, command, Child, Ctx, Outcome, returned, raised, terminated, Ui, is_functional,
  depth, enter_level, back_out, execute_command,
}

-- How the loop over the tokens ends: at a command, at the end of the line, or with an error.
pub data Walk (Level : Type 0) : Type 0 where
  at_command : Child Level → ℕ → Ctx Level → Walk Level
  at_level : Ctx Level → Walk Level
  fatal : Ctx Level → Walk Level

module _ {Level : Type 0} (u : Ui Level) where
  -- The rest of the loop follows a level that was entered.
  unfoldable pub after_entering : Outcome × Ctx Level → (Ctx Level → Walk Level) → Walk Level
  after_entering (returned _, c) next = next c
  after_entering (raised, c) next = fatal c
  after_entering (terminated _, c) next = fatal c

  unfoldable pub visit :
      Target Level → Child Level → (Ctx Level → Walk Level) → Ctx Level → Walk Level
  unfolding after_entering
  visit (command f) info next c = at_command info f c
  visit (level entry) info next c = after_entering (enter_level u entry c) next

  -- One round of the loop, with the child that the token names.
  unfoldable pub take_token :
      Option (Child Level) → Text → List Text → (Ctx Level → Walk Level) → Ctx Level → Walk Level
  unfolding visit
  take_token none token tokens next c =
      fatal (record c { command_name = token; command_args = tokens; command_info = none })
  take_token (some info) token tokens next c =
      visit info.target info next
        (record c { command_name = info.name; command_args = tokens; command_info = some info })

  -- The `while tokens` loop.
  unfoldable pub walk : List Text → Ctx Level → Walk Level
  unfolding take_token
  walk [] c = at_level c
  walk (token ∷ tokens) c = take_token (u.get_child c.current token) token tokens (walk tokens) c

  -- The checks before a command that is no request for help, and the command.
  unfoldable pub perform : Child Level → ℕ → Ctx Level → Outcome × Ctx Level
  perform info f c =
      let functional = is_functional c.command_name c.command_args in
      if functional && not (u.requires c.current)
      then (raised, c)
      else if functional && not (u.has_access c.current)
      then (terminated false, c)
      else execute_command u info f c

  -- The end of `run`: where the wait flag is set, the answer is that of the wait.
  abbrev pub waited : Bool → Ctx Level → Bool × Ctx Level
  waited rv c = (if c.wait_for_dc then u.dc_stable else rv, c)

  -- `rv = self._back_out() and rv`, and the end of `run`.
  abbrev pub backed_out : Bool → Ctx Level → Bool × Ctx Level
  backed_out rv c = let (ok, c') = back_out u c in waited (ok && rv) c'

  unfoldable pub settle : Outcome × Ctx Level → Bool × Ctx Level
  settle (returned rv, c) = backed_out rv c
  settle (raised, c) = backed_out false c
  settle (terminated success, c) = if success then backed_out true c else (false, c)

  unfoldable pub finish : Walk Level → Bool × Ctx Level
  finish (at_level c) = waited true c
  finish (fatal c) = settle (raised, c)
  finish (at_command info f c) = settle (perform info f c)

  -- The tokens of a line, or the `ValueError` of `shlex.split` (`none`).
  unfoldable pub run_tokens : Option (List Text) → Ctx Level → Bool × Ctx Level
  unfolding finish settle
  run_tokens tokens c =
      let c' = record c { mark = depth c; in_transit = false; wait_for_dc = false } in
      elim tokens [ none ↦ settle (raised, c') | some ts ↦ finish (walk ts c') ]
