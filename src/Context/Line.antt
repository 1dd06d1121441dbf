-- ===== src/Context/Line.antt =====
-- Where a whole command line leaves the user, in crmsh/ui_context.py.
use crmsh.Prelude.{◌≡◌, Bool, true, false, List, ◌++◌, if◌then◌else◌}
use crmsh.Context.Cursor.{Ctx, Outcome, returned, raised, terminated, Ui, depth, stack}
use crmsh.Context.Run.{perform}
use crmsh.Context.Trail.{End, reached, failed, commanded, Trail}
use crmsh.Context.Stack.{trim}

module _ {Level : Type 0} (u : Ui Level) where
  -- What `run` does before it reads the tokens.
  abbrev begun : Ctx Level → Ctx Level
  begun c = record c { mark = depth c; in_transit = false; wait_for_dc = false }

  -- What a command that has left the context `e` makes of the line that began in `c`.
  abbrev AfterCommand : Outcome → Ctx Level → Ctx Level → Bool × Ctx Level → Type 0
  AfterCommand (terminated false) e c r = (r.0 ≡ false) × (r.1 ≡ e)
  AfterCommand (terminated true) e c r = stack r.1 ≡ trim (depth c) (stack e)
  AfterCommand (returned true) e c r = stack r.1 ≡ trim (depth c) (stack e)
  AfterCommand (returned false) e c r =
      (r.0 ≡ (if e.wait_for_dc then u.dc_stable else false))
      × (stack r.1 ≡ trim (depth c) (stack e))
  AfterCommand raised e c r =
      (r.0 ≡ (if e.wait_for_dc then u.dc_stable else false))
      × (stack r.1 ≡ trim (depth c) (stack e))

  -- The answer and the context behind a line that begins in `c`, for each end of its trail.
  abbrev pub After : End Level → List Level → Ctx Level → Bool × Ctx Level → Type 0
  After reached levels c r = (r.0 ≡ true) × (stack r.1 ≡ levels ++ stack c)
  After failed levels c r = (r.0 ≡ false) × (stack r.1 ≡ stack c)
  After (commanded info f args) levels c r =
      (d : Ctx Level) × (stack d ≡ levels ++ stack c)
      × (d.command_args ≡ args)
      × AfterCommand (perform u info f d).0 (perform u info f d).1 c r
