-- ===== src/ConfFormat/RoundTrip/Whole.antt =====
-- The round trip of `DomSerializer` and `DomParser`.
use crmsh.Prelude.{◌≡◌, ap, some, [], append-nil, Text}
use crmsh.ConfFormat.Dom.{Fields}
use crmsh.ConfFormat.Parser.{ok, split_lines, run, parse}
use crmsh.ConfFormat.Builder.{Builder, at_path, parse_dom}
use crmsh.ConfFormat.Serializer.{serialize}
use crmsh.ConfFormat.RoundTrip.Printable.{IsSection, add_section}
use crmsh.ConfFormat.RoundTrip.Render.{render_fields, serialize-IsSection}
use crmsh.ConfFormat.RoundTrip.Replay.{IsIndent}
use crmsh.ConfFormat.RoundTrip.Sections.{Reads-section_fields}

-- A tree with plain keys, one-line values and the fields of each section in the order of
-- `_sort_dict_keys` is written with no error for any indentation of spaces, and `DomParser` reads
-- the same tree back from the lines of the text.
pub parse_dom-serialize :
    (indent : Text) (d : Fields)
    → IsIndent indent
    → IsSection d
    → (t : Text) × (serialize indent d ≡ some t) × (parse_dom (split_lines t) ≡ ok d)
unfolding parse_dom parse split_lines run at_path
parse_dom-serialize indent d iv s =
    let b : Builder = record { root = Fields.end; path = [] } in
    let (m, e) = (Reads-section_fields indent iv s [] b).at 0 [] in
    (
      render_fields indent 0 d,
      serialize-IsSection indent d s,
      rw (rw append-nil at e) (ap ok (add_section s)),
    )
