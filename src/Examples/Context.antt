-- ===== src/Examples/Context.antt =====
-- crmsh/ui_context.py: `configure show` on two levels, the root and `configure`.
use crmsh.Prelude.{Bool, true, false, Option, none, some, [], Text, codes, same, if◌then◌else◌}
use crmsh.Context.Cursor.{level, command, Child, Ctx, returned, Ui}
use crmsh.Context.Trail.{Trail}

abbrev child_of : Bool → Text → Option (Child Bool)
child_of false t =
    if same t (codes "configure")
    then some (record { name = t; target = level true; skill_level = 0; wait = false })
    else none
child_of true t =
    if same t (codes "show")
    then some (record { name = t; target = command 0; skill_level = 0; wait = true })
    else none

abbrev ui : Ui Bool
ui = record {
  get_child = child_of;
  requires = λ l. true;
  end_game = λ l b. true;
  level_should_wait = λ l. false;
  has_access = λ l. true;
  valid_arguments = λ f args. true;
  function = λ f args c. (returned true, c);
  can_ask = true;
  core_wait = true;
  user_skill = 2;
  dc_stable = true;
}

abbrev at_root : Ctx Bool
at_root = record {
  current = false;
  below = [];
  mark = 0;
  in_transit = false;
  wait_for_dc = false;
  interactive = true;
  command_name = [];
  command_args = [];
  command_info = none;
}
