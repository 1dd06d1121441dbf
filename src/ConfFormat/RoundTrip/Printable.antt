-- ===== src/ConfFormat/RoundTrip/Printable.antt =====
-- The trees that can be read back, and that adding their fields one by one rebuilds them.
use crmsh.Prelude.{
  ◌≡◌, refl, sym, ap, ◌∙◌, false, none, some, List, [], ◌∷◌, arith, ◌==◌, Text, same, same_iff, All,
}
use crmsh.ConfFormat.Dom.{Value, Items, Fields, lookup, insert, append_item, keys}
use crmsh.ConfFormat.Builder.{join_value, add_value}
use crmsh.ConfFormat.Serializer.{sort_dict_keys}
use crmsh.ConfFormat.RoundTrip.Strip.{Begins, Ends, IsTrimmed, IsPlain}
use crmsh.ConfFormat.RoundTrip.Tree.{
  add_fields, add_entry, add_items, add_item, lookup-insert, insert-insert,
}

-- No character is a newline.
abbrev pub IsOneLine : Text → Type 0
IsOneLine = All (λ c. c == b'\n' ≡ false)

-- A key: not empty, no space at its ends, no delimiter and no newline. So it is no comment.
pub record IsKey (k : Text) : Type 0 where
  pub begins : Begins k
  pub ends : Ends k
  pub plain : IsPlain k
  pub one_line : IsOneLine k

-- A value: one line with no space at its ends. It may be empty and may hold delimiters.
pub record IsScalar (s : Text) : Type 0 where
  pub trimmed : IsTrimmed s
  pub one_line : IsOneLine s

-- The fields of a section have different keys, in the order in which they are written; a list has
-- two items at least, and none of them is a list.
mutual
  pub data IsPrintable : Fields → Type 0 where
    end : IsPrintable Fields.end
    field :
        {k : Text} {v : Value} {fs : Fields}
        → IsKey k
        → All (λ j. same k j ≡ false) (keys fs)
        → IsEntry v
        → IsPrintable fs
        → IsPrintable (Fields.field k v fs)

  pub data IsEntry : Value → Type 0 where
    scalar : {s : Text} → IsScalar s → IsEntry (Value.scalar s)
    dict : {d : Fields} → IsSection d → IsEntry (Value.dict d)
    list :
        {x y : Value} {vs : Items}
        → IsItem x
        → IsItem y
        → AllItems vs
        → IsEntry (Value.list (Items.cons x (Items.cons y vs)))

  pub data IsItem : Value → Type 0 where
    scalar_item : {s : Text} → IsScalar s → IsItem (Value.scalar s)
    dict_item : {d : Fields} → IsSection d → IsItem (Value.dict d)

  pub data AllItems : Items → Type 0 where
    nil : AllItems Items.nil
    cons : {v : Value} {vs : Items} → IsItem v → AllItems vs → AllItems (Items.cons v vs)

  pub data IsSection : Fields → Type 0 where
    section : {d : Fields} → sort_dict_keys (keys d) ≡ keys d → IsPrintable d → IsSection d

abbrev pub concat : Fields → Fields → Fields
concat Fields.end d = d
concat (Fields.field k v fs) d = Fields.field k v (concat fs d)

concat-end : (d : Fields) → concat d Fields.end ≡ d
concat-end Fields.end = refl
concat-end (Fields.field k v fs) = ap (Fields.field k v) (concat-end fs)

concat_assoc : (a b c : Fields) → concat (concat a b) c ≡ concat a (concat b c)
concat_assoc Fields.end b c = refl
concat_assoc (Fields.field k v fs) b c = ap (Fields.field k v) (concat_assoc fs b c)

insert_fresh :
    (k : Text) (v : Value) (d : Fields)
    → lookup k d ≡ none
    → insert k v d ≡ concat d (Fields.field k v Fields.end)
unfolding insert lookup
insert_fresh k v Fields.end h = refl
insert_fresh k v (Fields.field j w fs) h = ground (arith, insert_fresh k v fs)

Fresh-insert :
    (k : Text) (v : Value) (d : Fields) (js : List Text)
    → All (λ j. same k j ≡ false) js
    → All (λ j. lookup j d ≡ none) js
    → All (λ j. lookup j (insert k v d) ≡ none) js
Fresh-insert k v d [] ne h = tt
Fresh-insert k v d (j ∷ js) ne h = (rw lookup-insert (rw ne.0 h.0), Fresh-insert k v d js ne.1 h.1)

add_value-fresh :
    (k : Text) (v : Value) (d : Fields) → lookup k d ≡ none → add_value k v d ≡ insert k v d
unfolding add_value
add_value-fresh k v d h = rw (h, add_value)

lookup-insert_self : (k : Text) (v : Value) (d : Fields) → lookup k (insert k v d) ≡ some v
lookup-insert_self k v d = ground (arith, lookup-insert k k v d, same_iff k k)

add_value-insert :
    (k : Text) (old new : Value) (d : Fields)
    → add_value k new (insert k old d) ≡ insert k (join_value old new) d
unfolding add_value
add_value-insert k old new d = rw (lookup-insert_self k old d, add_value) (insert-insert k old _ d)

abbrev concat_items : Items → Items → Items
concat_items Items.nil ys = ys
concat_items (Items.cons x xs) ys = Items.cons x (concat_items xs ys)

append_item-concat :
    (xs ys : Items) (v : Value)
    → concat_items (append_item xs v) ys ≡ concat_items xs (Items.cons v ys)
unfolding append_item
append_item-concat Items.nil ys v = refl
append_item-concat (Items.cons x xs) ys v = ap (Items.cons x) (append_item-concat xs ys v)

concat_items-nil : (xs : Items) → concat_items xs Items.nil ≡ xs
concat_items-nil Items.nil = refl
concat_items-nil (Items.cons x xs) = ap (Items.cons x) (concat_items-nil xs)

abbrev pair : Value → Value → Value
pair x y = Value.list (Items.cons x (Items.cons y Items.nil))

join_value-IsItem : {x : Value} (y : Value) → IsItem x → join_value x y ≡ pair x y
unfolding join_value
join_value-IsItem y (scalar_item i) = refl
join_value-IsItem y (dict_item s) = refl

lookup-end : (js : List Text) → All (λ j. lookup j Fields.end ≡ none) js
unfolding lookup
lookup-end [] = tt
lookup-end (j ∷ js) = (refl, lookup-end js)

mutual
  unfolding add_fields add_entry add_items add_item join_value

  -- Different keys that are not in `d` yet end up behind it, with the values that they had.
  pub add_fields-IsPrintable :
      {fs : Fields} (p : IsPrintable fs) (d : Fields)
      → All (λ j. lookup j d ≡ none) (keys fs)
      → add_fields fs d ≡ concat d fs
  add_fields-IsPrintable end d h = sym (concat-end d)
  add_fields-IsPrintable (field {k} {v} {fs} ik ne e p) d h =
      ap (add_fields fs) (add_entry-IsEntry e k d h.0)
      ∙ add_fields-IsPrintable p (insert k v d) (Fresh-insert k v d (keys fs) ne h.1)
      ∙ ap (λ x. concat x fs) (insert_fresh k v d h.0)
      ∙ concat_assoc d _ fs

  add_entry-IsEntry :
      {v : Value} (e : IsEntry v) (k : Text) (d : Fields)
      → lookup k d ≡ none
      → add_entry k v d ≡ insert k v d
  add_entry-IsEntry (scalar i) k d h = add_value-fresh k _ d h
  add_entry-IsEntry (dict s) k d h =
      add_value-fresh k _ d h ∙ ap (λ x. insert k (Value.dict x) d) (add_section s)
  add_entry-IsEntry (list {x} {y} {vs} ix iy a) k d h =
      ap (λ e. add_items k vs (add_item k y e)) (add_item-IsItem ix k d ∙ add_value-fresh k x d h)
      ∙ ap (add_items k vs) (
          add_item-IsItem iy k (insert k x d)
          ∙ add_value-insert k x y d
          ∙ ap (λ v. insert k v d) (join_value-IsItem y ix))
      ∙ add_items-AllItems a k (Items.cons x (Items.cons y Items.nil)) d

  pub add_section : {d : Fields} (s : IsSection d) → add_fields d Fields.end ≡ d
  add_section (section {d} sorted p) = add_fields-IsPrintable p Fields.end (lookup-end (keys d))

  -- An item is added like a value of its own.
  add_item-IsItem :
      {v : Value} (i : IsItem v) (k : Text) (d : Fields) → add_item k v d ≡ add_value k v d
  add_item-IsItem (scalar_item i) k d = refl
  add_item-IsItem (dict_item s) k d = ap (λ x. add_value k (Value.dict x) d) (add_section s)

  add_items-AllItems :
      {vs : Items} (a : AllItems vs) (k : Text) (xs : Items) (d : Fields)
      → add_items k vs (insert k (Value.list xs) d) ≡ insert k (Value.list (concat_items xs vs)) d
  add_items-AllItems nil k xs d = ap (λ x. insert k (Value.list x) d) (sym (concat_items-nil xs))
  add_items-AllItems (cons {v} {vs} i a) k xs d =
      ap (add_items k vs)
        (add_item-IsItem i k (insert k (Value.list xs) d) ∙ add_value-insert k (Value.list xs) v d)
      ∙ add_items-AllItems a k (append_item xs v) d
      ∙ ap (λ x. insert k (Value.list x) d) (append_item-concat xs vs v)
