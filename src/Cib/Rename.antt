-- ===== src/Cib/Rename.antt =====
-- The method `rename` of `CibFactory` of crmsh/cibconfig.py.
use crmsh.Prelude.{
  Bool, false, ◌||◌, not, Option, none, some, List, [], ◌∷◌, if◌then◌else◌, Text, same, is_empty,
}
use crmsh.IdMgmt.Store.{Store, is_used, rename}
use crmsh.Cib.Constraint.{Constraint, rename_refs, rename_rscref}
use crmsh.Cib.Factory.{
  Body, resource, constraint, tag, other, Obj, Factory, is_resource, lookup, related,
  related_constraint, put, for_each,
}

-- `obj.obj_id = new_id`. Its children and its parent hold the object itself, so they have its new id.
abbrev pub new_id : Text → Text → Text → Text
new_id old new i = if same i old then new else i

abbrev pub rename_parent : Text → Text → Option Text → Option Text
rename_parent old new none = none
rename_parent old new (some p) = some (new_id old new p)

unfoldable pub rename_links : Text → Text → Body → Body
unfolding rename_refs
rename_links old new (resource children p) =
    resource (rename_refs old new children) (rename_parent old new p)
rename_links old new (constraint c) = constraint c
rename_links old new (tag refs) = tag refs
rename_links old new other = other

unfoldable pub set_id : Text → Text → List Obj → List Obj
unfolding rename_links
set_id old new [] = []
set_id old new (o ∷ objects) =
    record o { obj_id = new_id old new o.obj_id; body = rename_links old new o.body }
    ∷ set_id old new objects

module _ (cli2node : Constraint → Option Constraint) where
  unfoldable pub rename_in : Text → Text → Text → Factory → Option Factory
  unfolding lookup rename_rscref
  rename_in old new t f = elim (lookup t f.cib_objects) [
    | some (constraint c) ↦ some (put t (constraint (rename_rscref cli2node old new c).1) f)
    | _ ↦ none
  ]

  -- `related_constraints` gives none for what is no resource.
  unfoldable pub rename_constraints : Text → Text → Body → Factory → Option Factory
  unfolding for_each rename_in related related_constraint
  rename_constraints old new b f =
      if is_resource b
      then for_each (rename_in old new) (related (related_constraint old) f.cib_objects) f
      else some f

  -- `rename`: `some false` is `False`, and `none` is the `None` of a method that ends without a
  -- `return`. `sane` is `is_cib_sane()` and `can` is `can_be_renamed`.
  unfoldable pub rename_obj :
      Bool
      → (Text → Bool)
      → Text
      → Text
      → Factory
      → Store
      → Option (Option Bool × (Factory × Store))
  unfolding is_used rename lookup rename_constraints set_id
  rename_obj sane can old new f s =
      if not sane || is_empty new || is_used new s
      then some (some false, (f, s))
      else (elim (lookup old f.cib_objects) [
        | none ↦ some (some false, (f, s))
        | some b ↦
            if not (can old)
            then some (some false, (f, s))
            else (elim (rename_constraints old new b f) [
              | none ↦ none
              | some f' ↦ some (
                none,
                (
                  record f' { cib_objects = set_id old new f'.cib_objects },
                  rename (some old) (some new) s,
                ),
              )
            ])
      ])
