-- ===== src/Context/Cursor.antt =====
-- The state of `Context` in crmsh/ui_context.py, and what it asks of the levels and commands.
--
-- The levels, their commands and their answers are not part of the class: they are the record `Ui`.
-- The readline cache and the messages are left out.
use crmsh.Prelude.{
  ℕ, suc, Bool, true, false, not, ◌&&◌, ◌||◌, Option, List, [], ◌∷◌, ltb, length, if◌then◌else◌,
  Text, codes, same, is_empty,
}

-- What a child is: a level to enter, or the function of a command.
pub data Target (Level : Type 0) : Type 0 where
  level : Level → Target Level
  command : ℕ → Target Level

-- `ChildInfo`
pub record Child (Level : Type 0) : Type 0 where
  pub name : Text
  pub target : Target Level
  pub skill_level : ℕ
  pub wait : Bool

pub record Ctx (Level : Type 0) : Type 0 where
  -- `stack[-1]`, and the rest of the stack, its last item first
  pub current : Level
  pub below : List Level
  pub mark : ℕ
  pub in_transit : Bool
  pub wait_for_dc : Bool
  -- `options.interactive`
  pub interactive : Bool
  pub command_name : Text
  pub command_args : List Text
  pub command_info : Option (Child Level)

-- How a call ends: with a value (whether it `is not False`), with a `ValueError` or an `IOError`, or
-- with `TerminateSubCommand` and its field.
pub data Outcome : Type 0 where
  returned : Bool → Outcome
  raised : Outcome
  terminated : Bool → Outcome

-- What the class calls: the levels, the functions of the commands, and the settings.
pub record Ui (Level : Type 0) : Type 0 where
  pub get_child : Level → Text → Option (Child Level)
  pub requires : Level → Bool
  pub end_game : Level → Bool → Bool
  pub level_should_wait : Level → Bool
  pub has_access : Level → Bool
  pub valid_arguments : ℕ → List Text → Bool
  pub function : ℕ → List Text → Ctx Level → Outcome × Ctx Level
  pub can_ask : Bool
  pub core_wait : Bool
  pub user_skill : ℕ
  -- `utils.wait_dc_stable`
  pub dc_stable : Bool

-- `_NON_FUNCTIONAL_COMMANDS`, `_NON_FUNCTIONAL_OPTIONS`
unfoldable pub non_functional_command : Text → Bool
non_functional_command t = same t (codes "help") || same t (codes "ls")

unfoldable pub non_functional_option : Text → Bool
non_functional_option t = same t (codes "--help") || same t (codes "--help-without-redirect")

unfoldable pub none_non_functional : List Text → Bool
none_non_functional [] = true
none_non_functional (t ∷ ts) = not (non_functional_option t) && none_non_functional ts

-- The test before `requires` is asked.
unfoldable pub is_functional : Text → List Text → Bool
is_functional name args = not (non_functional_command name) && none_non_functional args

module _ {Level : Type 0} where
  -- `len(self.stack)`
  abbrev pub depth : Ctx Level → ℕ
  depth c = suc (length c.below)

  -- The whole stack, its last item first.
  abbrev pub stack : Ctx Level → List Level
  stack c = c.current ∷ c.below

  module _ (u : Ui Level) where
    -- `enter_level`; `raised` is the `fatal_error`.
    unfoldable pub enter_level : Level → Ctx Level → Outcome × Ctx Level
    enter_level entry c =
        let interactive =
          if not c.interactive && is_empty c.command_args
          then (if u.can_ask then true else c.interactive)
          else c.interactive in
        let c' = record c { in_transit = true; interactive = interactive } in
        if is_functional c.command_name c.command_args && not (u.requires entry)
        then (raised, c')
        else (returned true, record c' { current = entry; below = c.current ∷ c.below })

    -- `up`, with the level below, if there is one.
    unfoldable pub pop_level : Ctx Level → List Level → Bool × Ctx Level
    pop_level c [] = (true, c)
    pop_level c (prev ∷ rest) =
        (u.end_game c.current c.in_transit, record c { current = prev; below = rest })

    unfoldable pub up : Ctx Level → Bool × Ctx Level
    unfolding pop_level
    up c = pop_level c c.below

    -- The loop of `_back_out`, with one round for each level of the stack.
    unfoldable pub back_out_loop : List Level → Bool → Ctx Level → Bool × Ctx Level
    back_out_loop [] ok c = (ok, c)
    back_out_loop (l ∷ ls) ok c =
        let raised_one = up c in
        let rest = back_out_loop ls (raised_one.0 && ok) raised_one.1 in
        if ltb 0 c.mark && ltb c.mark (depth c) then rest else (ok, c)

    -- `_back_out`
    unfoldable pub back_out : Ctx Level → Bool × Ctx Level
    unfolding back_out_loop
    back_out c = back_out_loop c.below true c

    -- `should_wait`
    unfoldable pub should_wait : Child Level → Ctx Level → Bool
    should_wait info c =
        if not u.core_wait
        then false
        else if info.wait
        then true
        else u.level_should_wait c.current && (c.in_transit || not c.interactive)

    -- `execute_command`, on the function of a command.
    unfoldable pub execute_command : Child Level → ℕ → Ctx Level → Outcome × Ctx Level
    execute_command info f c =
        if not (u.valid_arguments f c.command_args)
        then (raised, c)
        else if ltb u.user_skill info.skill_level
        then (raised, c)
        else (let (r, c') = u.function f c.command_args c in
            elim r [
              | returned b ↦
                  (returned b, if should_wait info c' then record c' { wait_for_dc = true } else c')
              | raised ↦ (raised, c')
              | terminated b ↦ (terminated b, c')
            ])
