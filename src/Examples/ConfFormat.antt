-- ===== src/Examples/ConfFormat.antt =====
-- A small corosync.conf through the serializer and the parser of crmsh/corosync_config_format.py.
use crmsh.Prelude.{◌≡◌, refl, arith, some, [], ◌∷◌, Text, codes, is_space, same, strip, starts_with}
use crmsh.ConfFormat.Tokenizer.{is_delimiter, tokenize}
use crmsh.ConfFormat.Dom.{Value, Items, Fields}
use crmsh.ConfFormat.Parser.{
  ok, malformed_line, unbalanced_brace, split_lines, parse, handle_line, dispatch,
}
use crmsh.ConfFormat.Builder.{parse_dom}
use crmsh.ConfFormat.Serializer.{serialize, sort_dict_keys, section, write_indent, value_line}
use crmsh.ConfFormat.RoundTrip.Printable.{
  IsKey, IsScalar, IsPrintable, IsEntry, IsItem, AllItems, IsSection,
}
use crmsh.ConfFormat.RoundTrip.Whole.{parse_dom-serialize}

abbrev ring_node : Fields
ring_node = Fields.field (codes "ring0_addr") (Value.scalar (codes "10.0.0.1")) (
    Fields.field (codes "ring1_addr") (Value.scalar (codes "fe80::1"))
      (Fields.field (codes "nodeid") (Value.scalar (codes "1")) Fields.end))

abbrev conf : Fields
conf =
    Fields.field (codes "totem")
      (Value.dict (Fields.field (codes "version") (Value.scalar (codes "2")) Fields.end))
      (Fields.field (codes "node")
        (Value.list
          (Items.cons (Value.dict ring_node) (Items.cons (Value.scalar (codes "spare")) Items.nil)))
        Fields.end)

IsKey-ring0 : IsKey (codes "ring0_addr")
unfolding is_space is_delimiter
IsKey-ring0 = ground arith

IsScalar-ring1 : IsScalar (codes "fe80::1")
unfolding is_space
IsScalar-ring1 = ground arith

ring_node-IsSection : IsSection ring_node
unfolding is_space is_delimiter sort_dict_keys same
ring_node-IsSection = IsSection.section refl (
    IsPrintable.field IsKey-ring0 (refl, (refl, tt)) (IsEntry.scalar (ground arith))
      (IsPrintable.field (ground arith) (refl, tt) (IsEntry.scalar IsScalar-ring1)
        (IsPrintable.field (ground arith) tt (IsEntry.scalar (ground arith)) IsPrintable.end)))

conf-IsSection : IsSection conf
unfolding is_space is_delimiter sort_dict_keys same
conf-IsSection = IsSection.section refl (
    IsPrintable.field (ground arith) (refl, tt)
      (IsEntry.dict (
        IsSection.section refl
          (IsPrintable.field (ground arith) tt (IsEntry.scalar (ground arith)) IsPrintable.end)))
      (IsPrintable.field (ground arith) tt
        (IsEntry.list (IsItem.dict_item ring_node-IsSection) (IsItem.scalar_item (ground arith))
          AllItems.nil)
        IsPrintable.end))

parse_dom-serialize_example :
    (t : Text) × (serialize (codes "\t") conf ≡ some t) × (parse_dom (split_lines t) ≡ ok conf)
unfolding is_space
parse_dom-serialize_example = parse_dom-serialize (codes "\t") conf (ground arith) conf-IsSection

conf_text :
    serialize (codes "\t") conf
    ≡ some (
        codes
          "totem {\n\tversion: 2\n}\n\nnode {\n\tring0_addr: 10.0.0.1\n\tring1_addr: fe80::1\n\tnodeid: 1\n}\n\nnode: spare\n")
unfolding serialize sort_dict_keys section write_indent starts_with value_line
conf_text = refl

-- The ring addresses are placed together, in order, where the first of them stands.
ring_order :
    sort_dict_keys (codes "name" ∷ codes "ring1_addr" ∷ codes "nodeid" ∷ codes "ring0_addr" ∷ [])
    ≡ codes "name" ∷ codes "ring0_addr" ∷ codes "ring1_addr" ∷ codes "nodeid" ∷ []
unfolding sort_dict_keys
ring_order = refl

-- Line numbers count from 0 in one exception and from 1 in the other.
brace_alone : parse_dom (codes "\n" ∷ codes "}\n" ∷ []) ≡ unbalanced_brace 2
unfolding parse_dom parse is_space is_delimiter handle_line strip tokenize dispatch
brace_alone = refl

word_alone : parse_dom (codes "\n" ∷ codes "word\n" ∷ []) ≡ malformed_line 1 (codes "word")
unfolding parse_dom parse is_space is_delimiter handle_line strip tokenize dispatch
word_alone = refl
