-- ===== src/ConfFormat/RoundTrip/Replay.antt =====
-- `DomParser` on written lines: what one line, a section, and a whole tree do to its state.
use crmsh.Prelude.{
  ℕ, zero, suc, ◌+◌, ◌≡◌, refl, subst, ◌∙◌, false, List, [], ◌∷◌, ◌++◌, append_assoc, Text, codes,
  is_space, is_empty, lstrip, strip, All-append,
}
use crmsh.ConfFormat.Tokenizer.{is_delimiter}
use crmsh.ConfFormat.Dom.{Value, Fields}
use crmsh.ConfFormat.Parser.{Result, State, split_lines, handle_line, dispatch, run}
use crmsh.ConfFormat.Builder.{Builder, at_path, add_value, on_key_value, dom_handler}
use crmsh.ConfFormat.Serializer.{write_indent, value_line}
use crmsh.ConfFormat.RoundTrip.Strip.{
  AllSpaces, Begins, IsTrimmed, strip_line, tokenize-append, Ends-append,
}
use crmsh.ConfFormat.RoundTrip.Printable.{IsOneLine, IsKey, IsScalar}

abbrev pub Run : Type 0
Run = State dom_handler

abbrev pub state : List Text → Builder → Run
state ss b = record { sections = ss; inner = b }

-- From `st` the parser reads `text`, whatever stands behind it, and is then in `st'`.
pub record Reads (text : Text) (st st' : Run) : Type 0 where
  pub at :
      (n : ℕ) (rest : Text)
      → (m : ℕ) × (run dom_handler n (split_lines (text ++ rest)) st
          ≡ run dom_handler m (split_lines rest) st')

pub Reads-nil : (st : Run) → Reads [] st st
Reads-nil st = record { at = λ n rest. (n, refl) }

pub Reads-append : {s t : Text} {a b c : Run} → Reads s a b → Reads t b c → Reads (s ++ t) a c
Reads-append {s} {t} f g = record {
  at = λ n rest.
      let (m, e) = f.at n (t ++ rest) in
      let (k, e') = g.at m rest in (k, rw (append_assoc s t rest) (e ∙ e'));
}

-- A reference is written through at the current node.
abbrev pub put : (Fields → Fields) → Builder → Builder
put f b = record b { root = at_path b.path f b.root }

split_lines-newline :
    (l rest : Text)
    → IsOneLine l
    → split_lines (l ++ b'\n' ∷ rest) ≡ (l ++ b'\n' ∷ []) ∷ split_lines rest
unfolding split_lines
split_lines-newline [] rest h = refl
split_lines-newline (c ∷ l) rest h = rw (h.0) (rw (split_lines-newline l rest h.1))

-- A line that the loop handles with no error.
pub Reads-line :
    (l : Text) (st st' : Run)
    → IsOneLine l
    → ((n : ℕ) → handle_line dom_handler n (strip (l ++ b'\n' ∷ [])) st ≡ Result.ok st')
    → Reads (l ++ b'\n' ∷ []) st st'
unfolding run
Reads-line l st st' one h = record {
  at = λ n rest. (
    n + 1,
    rw (append_assoc l (b'\n' ∷ []) rest) (rw (split_lines-newline l rest one) (rw (h n))),
  );
}

abbrev pub IsIndent : Text → Type 0
IsIndent s = AllSpaces s × IsOneLine s

pub write_indent-IsIndent :
    (indent : Text) (n : ℕ) → IsIndent indent → IsIndent (write_indent indent n)
unfolding write_indent
write_indent-IsIndent indent zero h = (tt, tt)
write_indent-IsIndent indent (suc n) h =
    let (a, b) = write_indent-IsIndent indent n h in
    (All-append _ indent _ h.0 a, All-append _ indent _ h.1 b)

pub IsKey-IsTrimmed : (k : Text) → IsKey k → IsTrimmed k
IsKey-IsTrimmed [] ik = tt
IsKey-IsTrimmed (c ∷ k) ik = (ik.begins, ik.ends)

pub key_not_empty : (s : Text) → Begins s → is_empty s ≡ false
key_not_empty [] h = absurd h
key_not_empty (c ∷ s) h = refl

pub Begins-append : (s t : Text) → Begins s → Begins (s ++ t)
Begins-append [] t h = absurd h
Begins-append (c ∷ s) t h = h

handle_key :
    (n : ℕ) (k s : Text) (ss : List Text) (b : Builder)
    → IsKey k
    → handle_line dom_handler n (k ++ (codes ":" ++ s)) (state ss b)
      ≡ Result.ok (state ss (on_key_value k (lstrip s) b))
unfolding handle_line dispatch is_space is_delimiter
handle_key n k s ss b ik =
    rw (key_not_empty (k ++ (codes ":" ++ s)) (Begins-append k _ ik.begins)) (
      rw (tokenize-append k [] s b':' ik.plain (IsKey-IsTrimmed k ik) tt refl refl, dispatch)
        (rw (key_not_empty k ik.begins)))

-- The text of a value line, less the newline, and what is left of it when it is stripped.
value_text : Text → Text → Text → Text
value_text v k s = v ++ (k ++ (codes ": " ++ s))

handle_value_text :
    (n : ℕ) (v k s : Text) (ss : List Text) (b : Builder)
    → IsIndent v
    → IsKey k
    → IsScalar s
    → handle_line dom_handler n (strip (value_text v k s ++ b'\n' ∷ [])) (state ss b)
      ≡ Result.ok (state ss (on_key_value k s b))
unfolding value_text is_space lstrip
handle_value_text n v k [] ss b iv ik i =
    rw
      (
        append_assoc v (k ++ codes ": ") (b'\n' ∷ []),
        append_assoc k (codes ": ") (b'\n' ∷ []),
        ← append_assoc k (codes ":") (codes " \n"),
        strip_line v (k ++ codes ":") (codes " \n") iv.0 (refl, (refl, tt))
            (Begins-append k _ ik.begins) (Ends-append k (codes ":") refl),
      )
      (handle_key n k [] ss b ik)
handle_value_text n v k (c ∷ s) ss b iv ik i =
    rw
      (
        append_assoc v (k ++ (codes ": " ++ c ∷ s)) (b'\n' ∷ []),
        strip_line v (k ++ (codes ": " ++ c ∷ s)) (b'\n' ∷ []) iv.0 (refl, tt)
            (Begins-append k _ ik.begins) (Ends-append k (codes ": " ++ c ∷ s) i.trimmed.1),
      )
      (rw (handle_key n k (codes " " ++ c ∷ s) ss b ik) (rw i.trimmed.0))

value_line_newline :
    (indent : Text) (depth : ℕ) (k s : Text)
    → value_text (write_indent indent depth) k s ++ b'\n' ∷ [] ≡ value_line indent depth k s
unfolding value_line value_text
value_line_newline indent depth k s = simp append_assoc

-- A line for a key and its value adds the value under the key.
pub Reads-value_line :
    (indent : Text) (depth : ℕ) (k s : Text) (ss : List Text) (b : Builder)
    → IsIndent indent
    → IsKey k
    → IsScalar s
    → Reads
        (value_line indent depth k s)
        (state ss b)
        (state ss (put (add_value k (Value.scalar s)) b))
unfolding value_line on_key_value value_text
Reads-value_line indent depth k s ss b iv ik i =
    let v = write_indent indent depth in
    let iv' = write_indent-IsIndent indent depth iv in
    subst (λ t. Reads t (state ss b) (state ss (put (add_value k (Value.scalar s)) b)))
      (value_line_newline indent depth k s)
      (Reads-line (value_text v k s) (state ss b) _
        (All-append _ v _ iv'.1 (All-append _ k _ ik.one_line (refl, (refl, i.one_line))))
        (λ n. handle_value_text n v k s ss b iv' ik i))
