-- ===== src/Cib/Constraint.antt =====
-- The references of a constraint to resources, and how crmsh/xmlutil.py renames and deletes them.
use crmsh.Prelude.{
  ℕ, suc, ◌+◌, ◌-◌, Bool, true, false, ◌&&◌, ◌||◌, not, Option, none, some, List, [], ◌∷◌, ◌++◌,
  ◌==◌, ltb, leb, if◌then◌else◌, Text, same, codes, is_empty, length, truthy,
}
use crmsh.Units.Booleans.{word, is_boolean_true}
use crmsh.Cli.Sets.Element.{RscSet}

pub data Tag : Type 0 where
  rsc_location rsc_colocation rsc_order rsc_ticket : Tag

-- The element of a constraint: its attributes in their order, and its resource sets.
pub record Constraint : Type 0 where
  pub tag : Tag
  pub attributes : List (Text × Text)
  pub sets : List RscSet

-- `attr in constants.constraint_rsc_refs`
unfoldable pub is_ref_attr : Text → Bool
is_ref_attr name =
    same name (codes "rsc")
    || same name (codes "with-rsc")
    || same name (codes "first")
    || same name (codes "then")

-- `attr in constraint_rsc_refs and c.get(attr) == rsc_id`
unfoldable pub refers : Text → Text × Text → Bool
unfolding is_ref_attr
refers rsc_id (name, value) = is_ref_attr name && same value rsc_id

unfoldable pub any_attr : Text → List (Text × Text) → Bool
unfolding refers
any_attr rsc_id [] = false
any_attr rsc_id (a ∷ attributes) = refers rsc_id a || any_attr rsc_id attributes

unfoldable pub any_ref : Text → List Text → Bool
any_ref rsc_id [] = false
any_ref rsc_id (r ∷ refs) = same r rsc_id || any_ref rsc_id refs

unfoldable pub any_set : Text → List RscSet → Bool
unfolding any_ref
any_set rsc_id [] = false
any_set rsc_id (s ∷ sets) = any_ref rsc_id s.refs || any_set rsc_id sets

-- `rsc_constraint`
unfoldable pub rsc_constraint : Text → Constraint → Bool
unfolding any_attr any_set
rsc_constraint rsc_id c = any_attr rsc_id c.attributes || any_set rsc_id c.sets

-- `node.xpath("resource_set/resource_ref")`
unfoldable pub all_refs : List RscSet → List Text
all_refs [] = []
all_refs (s ∷ sets) = s.refs ++ all_refs sets

-- `rename_rscref_simple` and `delete_rscref_simple`: whether it is modified, and what it is then.
unfoldable pub rename_attrs : Text → Text → List (Text × Text) → List (Text × Text)
unfolding refers
rename_attrs old new [] = []
rename_attrs old new (a ∷ attributes) =
    (if refers old a then (a.0, new) else a) ∷ rename_attrs old new attributes

unfoldable pub rename_rscref_simple : Text → Text → Constraint → Bool × Constraint
unfolding any_attr rename_attrs
rename_rscref_simple old new c =
    (any_attr old c.attributes, record c { attributes = rename_attrs old new c.attributes })

unfoldable pub delete_attrs : Text → List (Text × Text) → List (Text × Text)
unfolding refers
delete_attrs rsc_id [] = []
delete_attrs rsc_id (a ∷ attributes) =
    let rest = delete_attrs rsc_id attributes in if refers rsc_id a then rest else a ∷ rest

unfoldable pub delete_rscref_simple : Text → Constraint → Bool × Constraint
unfolding any_attr delete_attrs
delete_rscref_simple rsc_id c =
    (any_attr rsc_id c.attributes, record c { attributes = delete_attrs rsc_id c.attributes })

-- The `dict` of counts.
abbrev pub Counts : Type 0
Counts = List (Text × ℕ)

unfoldable pub count_of : Text → Counts → ℕ
count_of r [] = 0
count_of r ((k, n) ∷ d) = if same k r then n else count_of r d

unfoldable pub put_count : Text → ℕ → Counts → Counts
put_count r n [] = (r, n) ∷ []
put_count r n ((k, m) ∷ d) =
    let rest = put_count r n d in if same k r then (k, n) ∷ d else (k, m) ∷ rest

-- `rset_uniq`: a reference that is counted more than once is dropped, and counted off.
unfoldable pub uniq_refs : List Text → Counts → List Text × Counts
unfolding count_of put_count
uniq_refs [] d = ([], d)
uniq_refs (r ∷ refs) d =
    let many = ltb 1 (count_of r d) in
    let (kept, d') = uniq_refs refs (if many then put_count r (count_of r d - 1) d else d) in
    ((if many then kept else r ∷ kept), d')

unfoldable pub rset_uniq : List RscSet → Counts → List RscSet × Counts
unfolding uniq_refs
rset_uniq [] d = ([], d)
rset_uniq (s ∷ sets) d =
    let (refs, d') = uniq_refs s.refs d in
    let (sets', d2) = rset_uniq sets d' in (record s { refs = refs } ∷ sets', d2)

-- `rref.set("id", new_id)` for each reference to the old id.
unfoldable pub rename_refs : Text → Text → List Text → List Text
rename_refs old new [] = []
rename_refs old new (r ∷ refs) = (if same r old then new else r) ∷ rename_refs old new refs

unfoldable pub rename_sets : Text → Text → List RscSet → List RscSet
unfolding rename_refs
rename_sets old new [] = []
rename_sets old new (s ∷ sets) =
    record s { refs = rename_refs old new s.refs } ∷ rename_sets old new sets

-- The counts of the references.
unfoldable pub tally : List Text → Counts → Counts
unfolding count_of put_count
tally [] d = d
tally (r ∷ refs) d = tally refs (put_count r (suc (count_of r d)) d)

unfoldable pub total : Counts → ℕ
total [] = 0
total ((k, n) ∷ d) = n + total d

unfoldable pub delete_refs : Text → List Text → List Text
delete_refs rsc_id [] = []
delete_refs rsc_id (r ∷ refs) =
    let rest = delete_refs rsc_id refs in if same r rsc_id then rest else r ∷ rest

unfoldable pub delete_in_sets : Text → List RscSet → List RscSet
unfolding delete_refs
delete_in_sets rsc_id [] = []
delete_in_sets rsc_id (s ∷ sets) =
    record s { refs = delete_refs rsc_id s.refs } ∷ delete_in_sets rsc_id sets

unfoldable pub drop_empty : List RscSet → List RscSet
drop_empty [] = []
drop_empty (s ∷ sets) = let rest = drop_empty sets in if is_empty s.refs then rest else s ∷ rest

unfoldable pub has_empty : List RscSet → Bool
has_empty [] = false
has_empty (s ∷ sets) = is_empty s.refs || has_empty sets

-- `utils.get_boolean(rset.get("sequential"), True)`
unfoldable pub is_sequential : Option Text → Bool
unfolding is_boolean_true
is_sequential o = elim o [
  | none ↦ true
  | some v ↦ if truthy (some v) then is_boolean_true (word v) else true
]

unfoldable pub has_nonsequential : List RscSet → Bool
unfolding is_sequential
has_nonsequential [] = false
has_nonsequential (s ∷ sets) =
    (not (is_sequential s.sequential) && ltb 1 (length s.refs)) || has_nonsequential sets

-- `rset_convert`, over the way of a constraint through its text on the command line: `cli2node` is
-- `cli2node(repr_cli())`, which may fail.
unfoldable pub drop_sequential : List RscSet → List RscSet
drop_sequential [] = []
drop_sequential (s ∷ sets) =
    (if truthy s.sequential then record s { sequential = none } else s) ∷ drop_sequential sets

unfoldable pub attr_of : Text → List (Text × Text) → Option Text
attr_of name [] = none
attr_of name ((k, v) ∷ attributes) = if same k name then some v else attr_of name attributes

unfoldable pub put_attr : Text → Text → List (Text × Text) → List (Text × Text)
put_attr name value [] = (name, value) ∷ []
put_attr name value ((k, v) ∷ attributes) =
    let rest = put_attr name value attributes in
    if same k name then (k, value) ∷ attributes else (k, v) ∷ rest

abbrev pub put_maybe : Text → Option Text → List (Text × Text) → List (Text × Text)
put_maybe name none attributes = attributes
put_maybe name (some v) attributes = put_attr name v attributes

abbrev pub is_colocation : Tag → Bool
is_colocation rsc_location = false
is_colocation rsc_colocation = true
is_colocation rsc_order = false
is_colocation rsc_ticket = false

-- `# exchange the elements in colocations`
unfoldable pub exchange : Constraint → Constraint
unfolding attr_of put_attr
exchange c = record c {
  attributes =
      put_maybe (codes "with-rsc") (attr_of (codes "rsc") c.attributes)
        (put_maybe (codes "rsc") (attr_of (codes "with-rsc") c.attributes) c.attributes);
}

module _ (cli2node : Constraint → Option Constraint) where
  unfoldable pub rset_convert : Constraint → Constraint
  unfolding all_refs drop_sequential exchange
  rset_convert c =
      let plain = record c { sets = drop_sequential c.sets } in
      if length (all_refs c.sets) == 2
      then (elim (cli2node plain) [
        | none ↦ plain
        | some new ↦ if length c.sets == 1 && is_colocation c.tag then exchange new else new
      ])
      else c

  -- `delete_rscref_rset`
  unfoldable pub delete_rscref_rset : Text → Constraint → Bool × Constraint
  unfolding any_set delete_in_sets drop_empty has_empty has_nonsequential all_refs rset_convert
  delete_rscref_rset rsc_id c =
      let sets = delete_in_sets rsc_id c.sets in
      let rest = record c { sets = drop_empty sets } in
      (
        any_set rsc_id c.sets || has_empty sets,
        if not (has_nonsequential sets) && length (all_refs sets) == 2
            then rset_convert rest
            else rest,
      )

  -- `rename_rscref_rset`
  unfoldable pub rename_rscref_rset : Text → Text → Constraint → Bool × Constraint
  unfolding any_set rename_sets tally all_refs rset_uniq total rset_convert
  rename_rscref_rset old new c =
      let renamed = rename_sets old new c.sets in
      let (sets, d) = rset_uniq renamed (tally (all_refs renamed) []) in
      let rest = record c { sets = sets } in
      (any_set old c.sets, if total d == 2 then rset_convert rest else rest)

  abbrev pub or_then : Bool × Constraint → (Constraint → Bool × Constraint) → Bool × Constraint
  or_then (true, c) next = (true, c)
  or_then (false, c) next = next c

  -- `rename_rscref` and `delete_rscref`: the second half runs where the first has changed nothing.
  unfoldable pub rename_rscref : Text → Text → Constraint → Bool × Constraint
  unfolding rename_rscref_simple rename_rscref_rset
  rename_rscref old new c = or_then (rename_rscref_simple old new c) (rename_rscref_rset old new)

  unfoldable pub delete_rscref : Text → Constraint → Bool × Constraint
  unfolding delete_rscref_simple delete_rscref_rset
  delete_rscref rsc_id c = or_then (delete_rscref_simple rsc_id c) (delete_rscref_rset rsc_id)

-- `silly_constraint`
abbrev pub is_single : Tag → Bool
is_single rsc_location = true
is_single rsc_colocation = false
is_single rsc_order = false
is_single rsc_ticket = true

unfoldable pub count_attrs : List (Text × Text) → ℕ
unfolding is_ref_attr
count_attrs [] = 0
count_attrs ((k, v) ∷ attributes) =
    let rest = count_attrs attributes in if is_ref_attr k then suc rest else rest

unfoldable pub count_refers : Text → List (Text × Text) → ℕ
unfolding refers
count_refers rsc_id [] = 0
count_refers rsc_id (a ∷ attributes) =
    let rest = count_refers rsc_id attributes in if refers rsc_id a then suc rest else rest

unfoldable pub silly_constraint : Text → Constraint → Bool
unfolding all_refs count_attrs count_refers
silly_constraint rsc_id c =
    if not (is_empty (all_refs c.sets))
    then (if is_single c.tag
        then ltb (length (all_refs c.sets)) 1
        else leb (length (all_refs c.sets)) 1)
    else if is_single c.tag
    then ltb (count_attrs c.attributes) 1
    else count_refers rsc_id c.attributes == 2 || ltb (count_attrs c.attributes) 2
