-- ===== src/Cib/Factory.antt =====
-- The objects that `CibFactory` of crmsh/cibconfig.py keeps, and how it removes one.
use crmsh.Prelude.{
  ℕ, zero, suc, Bool, true, false, Option, none, some, List, [], ◌∷◌, ◌++◌, if◌then◌else◌, Text,
  same, is_empty, length,
}
use crmsh.Cib.Constraint.{
  Constraint, any_ref, rsc_constraint, all_refs, delete_refs, rename_rscref, delete_rscref,
  silly_constraint,
}

-- The node of an object. The children and the parent of a resource are objects, here by their ids;
-- `other` is a node that refers to no object by its id.
pub data Body : Type 0 where
  resource : List Text → Option Text → Body
  constraint : Constraint → Body
  tag : List Text → Body
  other : Body

pub record Obj : Type 0 where
  pub obj_id : Text
  pub body : Body
  pub from_cib : Bool

pub record Factory : Type 0 where
  pub cib_objects : List Obj
  pub remove_queue : List Text

abbrev pub is_resource : Body → Bool
is_resource (resource children parent) = true
is_resource (constraint c) = false
is_resource (tag refs) = false
is_resource other = false

abbrev pub is_tag : Body → Bool
is_tag (resource children parent) = false
is_tag (constraint c) = false
is_tag (tag refs) = true
is_tag other = false

-- `related_tag` and `related_constraint`
unfoldable pub related_tag : Text → Body → Bool
unfolding any_ref
related_tag i (resource children parent) = false
related_tag i (constraint c) = false
related_tag i (tag refs) = any_ref i refs
related_tag i other = false

unfoldable pub related_constraint : Text → Body → Bool
unfolding rsc_constraint
related_constraint i (resource children parent) = false
related_constraint i (constraint c) = rsc_constraint i c
related_constraint i (tag refs) = false
related_constraint i other = false

-- `[x for x in self.cib_objects if related(x)]`
unfoldable pub related : (Body → Bool) → List Obj → List Text
related test [] = []
related test (o ∷ objects) =
    let rest = related test objects in if test o.body then o.obj_id ∷ rest else rest

unfoldable pub lookup : Text → List Obj → Option Body
lookup i [] = none
lookup i (o ∷ objects) =
    let rest = lookup i objects in if same o.obj_id i then some o.body else rest

-- The node of an object is changed.
unfoldable pub update : Text → Body → List Obj → List Obj
update i b [] = []
update i b (o ∷ objects) =
    (if same o.obj_id i then record o { body = b } else o) ∷ update i b objects

-- `self.cib_objects.remove(obj)`; an object is known by its id.
unfoldable pub drop : Text → List Obj → List Obj
drop i [] = []
drop i (o ∷ objects) = let rest = drop i objects in if same o.obj_id i then rest else o ∷ rest

unfoldable pub came_from_cib : Text → List Obj → Bool
came_from_cib i [] = false
came_from_cib i (o ∷ objects) =
    let rest = came_from_cib i objects in if same o.obj_id i then o.from_cib else rest

-- `_relink_child_to_top` and `obj.parent.children.remove(obj)`
abbrev pub relink_child : Body → Body
relink_child (resource children parent) = resource children none
relink_child (constraint c) = constraint c
relink_child (tag refs) = tag refs
relink_child other = other

unfoldable pub remove_first : Text → List Text → List Text
remove_first i [] = []
remove_first i (x ∷ children) =
    let rest = remove_first i children in if same x i then children else x ∷ rest

abbrev pub remove_child : Text → Body → Body
remove_child i (resource children parent) = resource (remove_first i children) parent
remove_child i (constraint c) = constraint c
remove_child i (tag refs) = tag refs
remove_child i other = other

unfoldable pub alter : (Text → Bool) → (Body → Body) → List Obj → List Obj
alter at change [] = []
alter at change (o ∷ objects) =
    (if at o.obj_id then record o { body = change o.body } else o) ∷ alter at change objects

unfoldable pub relink : List Text → List Obj → List Obj
unfolding any_ref alter
relink children = alter (λ j. any_ref j children) relink_child

unfoldable pub leave_parent : Text → Option Text → List Obj → List Obj
unfolding alter
leave_parent i none objects = objects
leave_parent i (some p) objects = alter (λ j. same j p) (remove_child i) objects

unfoldable pub unlink : Text → Body → List Obj → List Obj
unfolding relink leave_parent
unlink i (resource children parent) objects = leave_parent i parent (relink children objects)
unlink i (constraint c) objects = objects
unlink i (tag refs) objects = objects
unlink i other objects = objects

-- The object leaves its children and its parent; with `_add_to_remove_queue`.
unfoldable pub detach : Text → Body → Factory → Factory
unfolding unlink drop came_from_cib
detach i b f = record {
  cib_objects = drop i (unlink i b f.cib_objects);
  remove_queue = if came_from_cib i f.cib_objects then f.remove_queue ++ i ∷ [] else f.remove_queue;
}

abbrev pub put : Text → Body → Factory → Factory
put i b f = record f { cib_objects = update i b f.cib_objects }

abbrev pub and_then : Option Factory → (Factory → Option Factory) → Option Factory
and_then none next = none
and_then (some f) next = next f

-- A loop over objects that were found before it.
unfoldable pub for_each : (Text → Factory → Option Factory) → List Text → Factory → Option Factory
for_each step [] f = some f
for_each step (i ∷ l) f = and_then (step i f) (for_each step l)

-- The loop over `related_tags(obj)`. `remove` is `_remove_obj`; an object that is gone cannot be removed.
unfoldable pub leave_tag :
    (Text → Factory → Option Factory) → Text → Text → Factory → Option Factory
unfolding lookup delete_refs
leave_tag remove i t f = elim (lookup t f.cib_objects) [
  | some (tag refs) ↦
      (let left = delete_refs i refs in
        let f' = put t (tag left) f in
        elim (is_empty left) [ true ↦ remove t f' | false ↦ some f' ])
  | _ ↦ none
]

module _ (cli2node : Constraint → Option Constraint) where
  -- `if is_simpleconstraint(c_obj.node) and obj.children`: the first child inherits the constraint.
  unfoldable pub inherit : Text → List Text → Constraint → Constraint
  unfolding all_refs rename_rscref
  inherit i [] c = c
  inherit i (child ∷ children) c =
      if is_empty (all_refs c.sets) then (rename_rscref cli2node i child c).1 else c

  -- The loop over `related_constraints(obj)`.
  unfoldable pub leave_constraint :
      (Text → Factory → Option Factory) → Text → List Text → Text → Factory → Option Factory
  unfolding lookup inherit delete_rscref silly_constraint
  leave_constraint remove i children t f = elim (lookup t f.cib_objects) [
    | some (constraint c) ↦
        (let c' = (delete_rscref cli2node i (inherit i children c)).1 in
          let f' = put t (constraint c') f in
          elim (silly_constraint i c') [ true ↦ remove t f' | false ↦ some f' ])
    | _ ↦ none
  ]

  unfoldable pub leave_constraints :
      (Text → Factory → Option Factory) → Text → Body → Factory → Option Factory
  unfolding for_each leave_constraint related related_constraint
  leave_constraints remove i (resource children parent) f =
      for_each (leave_constraint remove i children) (related (related_constraint i) f.cib_objects) f
  leave_constraints remove i (constraint c) f = some f
  leave_constraints remove i (tag refs) f = some f
  leave_constraints remove i other f = some f

  -- `_remove_obj` of the object with an id, on fuel.
  unfoldable pub remove_obj : ℕ → Text → Factory → Option Factory
  unfolding lookup detach for_each leave_tag leave_constraints related related_tag
  remove_obj zero i f = none
  remove_obj (suc n) i f = elim (lookup i f.cib_objects) [
    | none ↦ none
    | some b ↦
        (let f' = detach i b f in
          and_then
            (for_each (leave_tag (remove_obj n) i) (related (related_tag i) f'.cib_objects) f')
            (leave_constraints (remove_obj n) i b))
  ]

  -- `if obj in self.cib_objects: self._remove_obj(obj)`
  unfoldable pub remove_present : Text → Factory → Option Factory
  unfolding lookup remove_obj
  remove_present i f = elim (lookup i f.cib_objects) [
    | none ↦ some f
    | some b ↦ remove_obj (length f.cib_objects) i f
  ]

  -- `_delete_1` of an object: its parent is removed too where it is the only child.
  unfoldable pub delete_1 : ℕ → Text → Factory → Option Factory
  unfolding lookup remove_present
  delete_1 zero i f = none
  delete_1 (suc n) i f = elim (lookup i f.cib_objects) [
    | some (resource children (some p)) ↦ (elim (lookup p f.cib_objects) [
      | some (resource (x ∷ []) q) ↦ and_then (delete_1 n p f) (remove_present i)
      | _ ↦ remove_present i f
    ])
    | _ ↦ remove_present i f
  ]
