-- ===== src/ConfFormat/DomLaws.antt =====
-- Reading and writing the keys of a `dict` of the tree.
use crmsh.Prelude.{◌≡◌, refl, arith, some, if◌then◌else◌, Text, same, same_iff}
use crmsh.ConfFormat.Dom.{Value, Fields, end, field, lookup, insert}

pub lookup-insert :
    (j key : Text) (v : Value) (d : Fields)
    → lookup j (insert key v d) ≡ (if same key j then some v else lookup j d)
unfolding lookup insert
lookup-insert j key v end = refl
lookup-insert j key v (field k w fs) =
    ground (arith, same_iff k key, same_iff k j, same_iff key j, lookup-insert j key v fs)
