-- ===== src/ConfFormat/RoundTrip/Render.antt =====
-- A printable tree is written field by field in its own order.
use crmsh.Prelude.{
  ℕ, ◌+◌, ◌≡◌, refl, ap, ◌∙◌, false, Option, some, List, [], ◌∷◌, ◌++◌, arith, Text, same, same_iff,
  All, starts_with,
}
use crmsh.ConfFormat.Tokenizer.{is_delimiter}
use crmsh.ConfFormat.Parser.{comment_prefix}
use crmsh.ConfFormat.Dom.{Value, Items, Fields, keys}
use crmsh.ConfFormat.Serializer.{
  Parts, part, join_parts, arrange, sort_dict_keys, section, value_line, write_fields, write_value,
  write_items, write_item, map_parts, serialize,
}
use crmsh.ConfFormat.RoundTrip.Printable.{
  IsKey, IsPrintable, end, field, IsEntry, scalar, dict, list, IsItem, scalar_item, dict_item,
  AllItems, nil, cons, IsSection, section as is_section,
}

-- The same text without a detour through a table of parts.
unfoldable mutual
  pub render_fields : Text → ℕ → Fields → Text
  render_fields indent depth Fields.end = []
  render_fields indent depth (Fields.field k v fs) =
      render_value indent depth k v ++ render_fields indent depth fs

  pub render_value : Text → ℕ → Text → Value → Text
  render_value indent depth k (Value.scalar s) = value_line indent depth k s
  render_value indent depth k (Value.dict d) =
      section indent depth k (render_fields indent (depth + 1) d)
  render_value indent depth k (Value.list vs) = render_items indent depth k vs

  pub render_items : Text → ℕ → Text → Items → Text
  render_items indent depth k Items.nil = []
  render_items indent depth k (Items.cons v vs) =
      render_value indent depth k v ++ render_items indent depth k vs

-- The text for each key, in the order of the fields.
abbrev rendered_parts : Text → ℕ → Fields → Parts
rendered_parts indent depth Fields.end = []
rendered_parts indent depth (Fields.field k v fs) =
    (k, render_value indent depth k v) ∷ rendered_parts indent depth fs

-- A part for another key is passed over.
join_parts_other :
    (k : Text) (t : Text) (js : List Text) (ps : Parts)
    → All (λ j. same k j ≡ false) js
    → join_parts js ((k, t) ∷ ps) ≡ join_parts js ps
unfolding join_parts part
join_parts_other k t [] ps h = refl
join_parts_other k t (j ∷ js) ps h =
    rw (h.0) (ap (λ x. part j ps ++ x) (join_parts_other k t js ps h.1))

join_parts-IsPrintable :
    (indent : Text) (depth : ℕ) {fs : Fields} (p : IsPrintable fs)
    → join_parts (keys fs) (rendered_parts indent depth fs) ≡ render_fields indent depth fs
unfolding join_parts part render_fields
join_parts-IsPrintable indent depth end = refl
join_parts-IsPrintable indent depth (field {k} {v} {fs} ik ne e p) = rw ((same_iff k k).1 refl) (
    ap (λ x. render_value indent depth k v ++ x)
      (join_parts_other k _ (keys fs) _ ne ∙ join_parts-IsPrintable indent depth p))

-- A key is no comment, as it holds no `#`.
not_comment : (k : Text) → IsKey k → starts_with comment_prefix k ≡ false
unfolding starts_with is_delimiter
not_comment [] ik = absurd ik.begins
not_comment (c ∷ k) ik = ground (arith, ik.plain.0)

arrange_sorted :
    (indent : Text) (depth : ℕ) (d : Fields)
    → sort_dict_keys (keys d) ≡ keys d
    → IsPrintable d
    → ◌≡◌ {A = Option Text}
        (some (arrange d (rendered_parts indent depth d)))
        (some (render_fields indent depth d))
unfolding arrange
arrange_sorted indent depth d sorted p = ap some (rw sorted (join_parts-IsPrintable indent depth p))

mutual
  unfolding write_fields write_value write_items write_item render_fields render_value render_items

  write_fields-IsPrintable :
      {fs : Fields} (p : IsPrintable fs) (indent : Text) (depth : ℕ)
      → write_fields indent depth fs ≡ some (rendered_parts indent depth fs)
  write_fields-IsPrintable end indent depth = refl
  write_fields-IsPrintable (field {k} {v} {fs} ik ne e p) indent depth =
      rw (write_value-IsEntry e indent depth k ik, write_fields-IsPrintable p indent depth)

  write_value-IsEntry :
      {v : Value} (e : IsEntry v) (indent : Text) (depth : ℕ) (k : Text)
      → IsKey k
      → write_value indent depth k v ≡ some (render_value indent depth k v)
  write_value-IsEntry (scalar i) indent depth k ik = rw (not_comment k ik)
  write_value-IsEntry (dict {d} s) indent depth k ik = rw (write_section s indent (depth + 1))
  write_value-IsEntry (list {x} {y} {vs} ix iy a) indent depth k ik = rw (
    write_item-IsItem ix indent depth k,
    write_item-IsItem iy indent depth k,
    write_items-AllItems a indent depth k,
  )

  write_section :
      {d : Fields} (s : IsSection d) (indent : Text) (depth : ℕ)
      → map_parts (arrange d) (write_fields indent depth d) ≡ some (render_fields indent depth d)
  write_section (is_section {d} sorted p) indent depth =
      rw (write_fields-IsPrintable p indent depth) (arrange_sorted indent depth d sorted p)

  write_item-IsItem :
      {v : Value} (i : IsItem v) (indent : Text) (depth : ℕ) (k : Text)
      → write_item indent depth k v ≡ some (render_value indent depth k v)
  write_item-IsItem (scalar_item i) indent depth k = refl
  write_item-IsItem (dict_item s) indent depth k = rw (write_section s indent (depth + 1))

  write_items-AllItems :
      {vs : Items} (a : AllItems vs) (indent : Text) (depth : ℕ) (k : Text)
      → write_items indent depth k vs ≡ some (render_items indent depth k vs)
  write_items-AllItems nil indent depth k = refl
  write_items-AllItems (cons i a) indent depth k =
      rw (write_item-IsItem i indent depth k, write_items-AllItems a indent depth k)

-- The text written for a printable tree.
pub serialize-IsSection :
    (indent : Text) (d : Fields)
    → IsSection d
    → serialize indent d ≡ some (render_fields indent 0 d)
unfolding serialize
serialize-IsSection indent d s = write_section s indent 0
