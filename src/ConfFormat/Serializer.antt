-- ===== src/ConfFormat/Serializer.antt =====
-- The class `DomSerializer` of crmsh/corosync_config_format.py.
use crmsh.Prelude.{
  ℕ, zero, suc, ◌+◌, Bool, true, false, not, ◌&&◌, ◌||◌, Option, none, some, List, [], ◌∷◌, ◌++◌,
  ◌==◌, ltb, if◌then◌else◌, Text, codes, same, strip_prefix, starts_with,
}
use crmsh.ConfFormat.Dom.{Value, scalar, dict, list, Items, nil, cons, Fields, end, field, keys}
use crmsh.ConfFormat.Parser.{comment_prefix}

-- `re.match('^ring._addr$', x)`: `.` is no newline, and `$` stands before a last newline too.
unfoldable pub is_ring_addr : Text → Bool
unfolding same strip_prefix
is_ring_addr x = elim (strip_prefix (codes "ring") x) [
  | none ↦ false
  | some [] ↦ false
  | some (c ∷ s) ↦ not (c == b'\n') && (same s (codes "_addr") || same s (codes "_addr\n"))
]

-- The first loop of `_sort_dict_keys`, from item `i` on; `none` is the index -1.
rank : ℕ → Option ℕ → List Text → List (ℕ × Text)
rank i first [] = []
rank i first (x ∷ xs) =
    let ring = is_ring_addr x in
    let group : ℕ = elim first [ none ↦ i | some f ↦ f ] in
    (if ring then group else i, x) ∷ rank (i + 1) (if ring then some group else first) xs

-- `s <= t` on strings and on the pairs.
text_le : Text → Text → Bool
text_le [] t = true
text_le (x ∷ s) [] = false
text_le (x ∷ s) (y ∷ t) = ltb x y || (x == y && text_le s t)

pair_le : ℕ × Text → ℕ × Text → Bool
pair_le (i, x) (j, y) = ltb i j || (i == j && text_le x y)

insert_pair : ℕ × Text → List (ℕ × Text) → List (ℕ × Text)
insert_pair p [] = p ∷ []
insert_pair p (q ∷ qs) = if pair_le p q then p ∷ q ∷ qs else q ∷ insert_pair p qs

-- `ret.sort()`
sort_pairs : List (ℕ × Text) → List (ℕ × Text)
sort_pairs [] = []
sort_pairs (p ∷ ps) = insert_pair p (sort_pairs ps)

seconds : List (ℕ × Text) → List Text
seconds [] = []
seconds ((i, x) ∷ ps) = x ∷ seconds ps

-- `_sort_dict_keys`
unfoldable pub sort_dict_keys : List Text → List Text
unfolding rank text_le pair_le insert_pair sort_pairs seconds is_ring_addr
sort_dict_keys li = seconds (sort_pairs (rank 0 none li))

-- `__write_indent`
unfoldable pub write_indent : Text → ℕ → Text
write_indent indent zero = []
write_indent indent (suc n) = indent ++ write_indent indent n

-- What is written for each key of a `dict`.
abbrev pub Parts : Type 0
Parts = List (Text × Text)

unfoldable pub part : Text → Parts → Text
part key [] = []
part key ((k, t) ∷ ps) = if same k key then t else part key ps

unfoldable pub join_parts : List Text → Parts → Text
unfolding part
join_parts [] ps = []
join_parts (k ∷ ks) ps = part k ps ++ join_parts ks ps

-- The loop of `on_dict`: the keys in the order of `_sort_dict_keys`.
unfoldable pub arrange : Fields → Parts → Text
arrange node ps = join_parts (sort_dict_keys (keys node)) ps

-- A section with its header and its closing brace, from the text of its fields.
unfoldable pub section : Text → ℕ → Text → Text → Text
section indent depth key body =
    write_indent indent depth
    ++ (key ++ (codes " {\n" ++ (body ++ (write_indent indent depth ++ codes "}\n\n"))))

-- A line for a key and its value; only `on_dict` writes comments.
unfoldable pub value_line : Text → ℕ → Text → Text → Text
value_line indent depth key value =
    write_indent indent depth ++ (key ++ (codes ": " ++ (value ++ codes "\n")))

unfoldable pub comment_line : Text → ℕ → Text → Text
comment_line indent depth value = write_indent indent depth ++ (codes "# " ++ (value ++ codes "\n"))

abbrev pub map_text : (Text → Text) → Option Text → Option Text
map_text f none = none
map_text f (some t) = some (f t)

abbrev pub append_text : Option Text → Option Text → Option Text
append_text (some s) (some t) = some (s ++ t)
append_text (some s) none = none
append_text none t = none

abbrev pub add_part : Text → Option Text → Option Parts → Option Parts
add_part key (some t) (some ps) = some ((key, t) ∷ ps)
add_part key (some t) none = none
add_part key none ps = none

abbrev pub map_parts : (Parts → Text) → Option Parts → Option Text
map_parts f none = none
map_parts f (some ps) = some (f ps)

-- `on_dict` and `on_list`; `depth` is the length of `_path_stack`. `none` is the `ValueError` of a
-- list in a list.
unfoldable mutual
  pub write_fields : Text → ℕ → Fields → Option Parts
  write_fields indent depth end = some []
  write_fields indent depth (field k v fs) =
      add_part k (write_value indent depth k v) (write_fields indent depth fs)

  pub write_value : Text → ℕ → Text → Value → Option Text
  write_value indent depth key (scalar s) = some (
      if starts_with comment_prefix key
      then comment_line indent depth s
      else value_line indent depth key s)
  write_value indent depth key (dict d) =
      map_text (section indent depth key)
        (map_parts (arrange d) (write_fields indent (depth + 1) d))
  write_value indent depth key (list vs) = write_items indent depth key vs

  pub write_items : Text → ℕ → Text → Items → Option Text
  write_items indent depth key nil = some []
  write_items indent depth key (cons v vs) =
      append_text (write_item indent depth key v) (write_items indent depth key vs)

  pub write_item : Text → ℕ → Text → Value → Option Text
  write_item indent depth key (scalar s) = some (value_line indent depth key s)
  write_item indent depth key (dict d) =
      map_text (section indent depth key)
        (map_parts (arrange d) (write_fields indent (depth + 1) d))
  write_item indent depth key (list vs) = none

-- `DomSerializer(dom, ofile, indent)` on a `dict`: the text written to `ofile`.
unfoldable pub serialize : Text → Fields → Option Text
unfolding write_fields write_value write_items write_item arrange join_parts
serialize indent node = map_parts (arrange node) (write_fields indent 0 node)
