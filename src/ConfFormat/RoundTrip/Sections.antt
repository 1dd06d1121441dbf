-- ===== src/ConfFormat/RoundTrip/Sections.antt =====
-- A section is read line by line: its header, its fields and its closing brace; so is a whole tree.
use crmsh.Prelude.{
  ℕ, ◌+◌, ◌≡◌, refl, All-append, sym, ap, subst, ◌∙◌, List, [], ◌∷◌, ◌++◌, append_assoc, Text,
  codes, is_space, lstrip, strip,
}
use mathlib.Core.Path.{fun_ext}
use crmsh.ConfFormat.Tokenizer.{is_delimiter, tokenize}
use crmsh.ConfFormat.Dom.{Value, Items, Fields}
use crmsh.ConfFormat.Parser.{Result, handle_line, dispatch}
use crmsh.ConfFormat.Builder.{
  Builder, at_key, at_path, on_section, add_value, drop_last, enter_section, exit_section,
  dom_handler,
}
use crmsh.ConfFormat.Serializer.{write_indent, section}
use crmsh.ConfFormat.RoundTrip.Strip.{Ends-append, strip_line, tokenize-append}
use crmsh.ConfFormat.RoundTrip.Tree.{
  add_fields, add_entry, add_items, add_item, at_path-at_path, at_path_snoc, at_path_id,
  at_key-add_value,
}
use crmsh.ConfFormat.RoundTrip.Printable.{
  IsKey, IsPrintable, end, field, IsEntry, scalar, dict, list, IsItem, scalar_item, dict_item,
  AllItems, nil, cons, IsSection, section as is_section,
}
use crmsh.ConfFormat.RoundTrip.Render.{render_fields, render_value, render_items}
use crmsh.ConfFormat.RoundTrip.Replay.{
  Run, state, Reads, Reads-nil, Reads-append, put, Reads-line, IsIndent, write_indent-IsIndent,
  key_not_empty, Begins-append, IsKey-IsTrimmed, Reads-value_line,
}

drop_last_snoc {ℓ} : {A : Type ℓ} (xs : List A) (x : A) → drop_last (xs ++ x ∷ []) ≡ xs
unfolding drop_last
drop_last_snoc [] x = refl
drop_last_snoc (y ∷ []) x = refl
drop_last_snoc (y ∷ z ∷ xs) x = ap (λ ys. y ∷ ys) (drop_last_snoc (z ∷ xs) x)

-- Entering a section, adding to it and leaving it adds the filled section.
exit-put-enter :
    (k : Text) (f : Fields → Fields) (b : Builder)
    → exit_section k (put f (enter_section k b)) ≡ put (add_value k (Value.dict (f Fields.end))) b
unfolding exit_section enter_section
exit-put-enter k f b = λ i. record {
  root =
      (at_path_snoc b.path k f (at_path b.path (add_value k (Value.dict Fields.end)) b.root)
          ∙ at_path-at_path b.path (at_key k (on_section f)) _ b.root
          ∙ ap (λ h. at_path b.path h b.root) (fun_ext (at_key-add_value k f Fields.end)))
        i;
  path = drop_last_snoc b.path k i;
}

handle_header :
    (n : ℕ) (k : Text) (ss : List Text) (b : Builder)
    → IsKey k
    → handle_line dom_handler n (k ++ codes " {") (state ss b)
      ≡ Result.ok (state (k ∷ ss) (enter_section k b))
unfolding handle_line dispatch is_space is_delimiter lstrip
handle_header n k ss b ik = rw (key_not_empty (k ++ codes " {") (Begins-append k _ ik.begins)) (
    rw
      (
        tokenize-append k (codes " ") [] b'{' ik.plain (IsKey-IsTrimmed k ik) (refl, tt) refl refl,
        dispatch,
      )
      (rw (key_not_empty k ik.begins)))

handle_brace :
    (n : ℕ) (k : Text) (ss : List Text) (b : Builder)
    → handle_line dom_handler n (codes "}") (state (k ∷ ss) b)
      ≡ Result.ok (state ss (exit_section k b))
unfolding handle_line dispatch is_space is_delimiter tokenize lstrip
handle_brace n k ss b = refl

handle_blank : (n : ℕ) (st : Run) → handle_line dom_handler n (strip (b'\n' ∷ [])) st ≡ Result.ok st
unfolding handle_line is_space strip
handle_blank n st = refl

Reads-header :
    (v k : Text) (ss : List Text) (b : Builder)
    → IsIndent v
    → IsKey k
    → Reads
        ((v ++ (k ++ codes " {")) ++ b'\n' ∷ [])
        (state ss b)
        (state (k ∷ ss) (enter_section k b))
unfolding is_space
Reads-header v k ss b iv ik =
    Reads-line (v ++ (k ++ codes " {")) (state ss b) _
      (All-append _ v _ iv.1 (All-append _ k _ ik.one_line (refl, (refl, tt))))
      λ n.
        rw
          (
            append_assoc v (k ++ codes " {") (b'\n' ∷ []),
            strip_line v (k ++ codes " {") (b'\n' ∷ []) iv.0 (refl, tt)
                (Begins-append k _ ik.begins) (Ends-append k (codes " {") refl),
          )
          (handle_header n k ss b ik)

Reads-brace :
    (v k : Text) (ss : List Text) (b : Builder)
    → IsIndent v
    → Reads ((v ++ codes "}") ++ b'\n' ∷ []) (state (k ∷ ss) b) (state ss (exit_section k b))
unfolding is_space
Reads-brace v k ss b iv =
    Reads-line (v ++ codes "}") (state (k ∷ ss) b) _ (All-append _ v _ iv.1 (refl, tt)) λ n.
      rw
        (
          append_assoc v (codes "}") (b'\n' ∷ []),
          strip_line v (codes "}") (b'\n' ∷ []) iv.0 (refl, tt) refl refl,
        )
        (handle_brace n k ss b)

section_lines :
    (indent : Text) (depth : ℕ) (k body : Text)
    → ((write_indent indent depth ++ (k ++ codes " {")) ++ b'\n' ∷ [])
        ++ (body ++ (((write_indent indent depth ++ codes "}") ++ b'\n' ∷ []) ++ b'\n' ∷ []))
      ≡ section indent depth k body
unfolding section
section_lines indent depth k body = simp append_assoc

Reads-section :
    (indent : Text) (depth : ℕ) (k body : Text) (f : Fields → Fields) (ss : List Text) (b : Builder)
    → IsIndent indent
    → IsKey k
    → ((c : Builder) → Reads body (state (k ∷ ss) c) (state (k ∷ ss) (put f c)))
    → Reads
        (section indent depth k body)
        (state ss b)
        (state ss (put (add_value k (Value.dict (f Fields.end))) b))
Reads-section indent depth k body f ss b iv ik inside =
    let v = write_indent indent depth in
    let iv' = write_indent-IsIndent indent depth iv in
    let blank =
      Reads-line [] (state ss (exit_section k (put f (enter_section k b)))) _ tt
        (λ n. handle_blank n _) in
    subst (λ c. Reads (section indent depth k body) (state ss b) (state ss c))
      (exit-put-enter k f b)
      (subst (λ t. Reads t (state ss b) (state ss (exit_section k (put f (enter_section k b)))))
        (section_lines indent depth k body)
        (Reads-append (Reads-header v k ss b iv' ik) (
          Reads-append (inside (enter_section k b))
            (Reads-append (Reads-brace v k ss (put f (enter_section k b)) iv') blank))))

-- Two writes at the current node are one.
Reads-put :
    {t u : Text} (f g : Fields → Fields) (ss : List Text) (b : Builder)
    → Reads t (state ss b) (state ss (put f b))
    → Reads u (state ss (put f b)) (state ss (put g (put f b)))
    → Reads (t ++ u) (state ss b) (state ss (put (λ d. g (f d)) b))
Reads-put {t} {u} f g ss b r q =
    subst (λ (root : Fields). Reads (t ++ u) (state ss b) (state ss (record b { root = root })))
      (at_path-at_path b.path g f b.root) (Reads-append r q)

Reads-put_nothing :
    (ss : List Text) (b : Builder) → Reads [] (state ss b) (state ss (put (λ d. d) b))
Reads-put_nothing ss b =
    subst (λ (root : Fields). Reads [] (state ss b) (state ss (record b { root = root })))
      (sym (at_path_id b.path b.root)) (Reads-nil (state ss b))

module _ (indent : Text) (iv : IsIndent indent) where
  mutual
    unfolding render_fields add_fields

    pub Reads-fields :
        {fs : Fields} (p : IsPrintable fs) (depth : ℕ) (ss : List Text) (b : Builder)
        → Reads (render_fields indent depth fs) (state ss b) (state ss (put (add_fields fs) b))
    Reads-fields end depth ss b = Reads-put_nothing ss b
    Reads-fields (field {k} {v} {fs} ik ne e p) depth ss b =
        Reads-put (add_entry k v) (add_fields fs) ss b (Reads-value e depth k ss b ik)
          (Reads-fields p depth ss (put (add_entry k v) b))

    Reads-value :
        {v : Value} (e : IsEntry v) (depth : ℕ) (k : Text) (ss : List Text) (b : Builder)
        → IsKey k
        → Reads (render_value indent depth k v) (state ss b) (state ss (put (add_entry k v) b))
    Reads-value (scalar i) depth k ss b ik = Reads-value_line indent depth k _ ss b iv ik i
    Reads-value (dict s) depth k ss b ik = Reads-dict s depth k ss b ik
    Reads-value (list {x} {y} {vs} ix iy a) depth k ss b ik =
        Reads-put (add_item k x) (λ d. add_items k vs (add_item k y d)) ss b
          (Reads-item ix depth k ss b ik)
          (Reads-put (add_item k y) (add_items k vs) ss (put (add_item k x) b)
            (Reads-item iy depth k ss (put (add_item k x) b) ik)
            (Reads-items a depth k ss (put (add_item k y) (put (add_item k x) b)) ik))

    Reads-dict :
        {d : Fields} (s : IsSection d) (depth : ℕ) (k : Text) (ss : List Text) (b : Builder)
        → IsKey k
        → Reads
            (section indent depth k (render_fields indent (depth + 1) d))
            (state ss b)
            (state ss (put (add_value k (Value.dict (add_fields d Fields.end))) b))
    Reads-dict (is_section {d} sorted p) depth k ss b ik =
        Reads-section indent depth k _ (add_fields d) ss b iv ik
          (λ c. Reads-fields p (depth + 1) (k ∷ ss) c)

    Reads-item :
        {v : Value} (i : IsItem v) (depth : ℕ) (k : Text) (ss : List Text) (b : Builder)
        → IsKey k
        → Reads (render_value indent depth k v) (state ss b) (state ss (put (add_item k v) b))
    Reads-item (scalar_item i) depth k ss b ik = Reads-value_line indent depth k _ ss b iv ik i
    Reads-item (dict_item s) depth k ss b ik = Reads-dict s depth k ss b ik

    Reads-items :
        {vs : Items} (a : AllItems vs) (depth : ℕ) (k : Text) (ss : List Text) (b : Builder)
        → IsKey k
        → Reads (render_items indent depth k vs) (state ss b) (state ss (put (add_items k vs) b))
    Reads-items nil depth k ss b ik = Reads-put_nothing ss b
    Reads-items (cons {v} {vs} i a) depth k ss b ik =
        Reads-put (add_item k v) (add_items k vs) ss b (Reads-item i depth k ss b ik)
          (Reads-items a depth k ss (put (add_item k v) b) ik)

  pub Reads-section_fields :
      {d : Fields} (s : IsSection d) (ss : List Text) (b : Builder)
      → Reads (render_fields indent 0 d) (state ss b) (state ss (put (add_fields d) b))
  Reads-section_fields (is_section sorted p) ss b = Reads-fields p 0 ss b
