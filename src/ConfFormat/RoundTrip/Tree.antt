-- ===== src/ConfFormat/RoundTrip/Tree.antt =====
-- What the handlers of `DomParser` make of a tree that is handed to them field by field.
use crmsh.Prelude.{
  ◌≡◌, refl, ap, ◌∙◌, Option, none, some, List, [], ◌∷◌, ◌++◌, arith, if◌then◌else◌, Text, same,
  same_iff,
}
use mathlib.Core.Path.{fun_ext}
use crmsh.ConfFormat.Dom.{
  Value, scalar, dict, list, Items, nil, cons, Fields, end, field, lookup, insert, append_item,
}
use crmsh.ConfFormat.Builder.{on_last, on_section, at_key, at_path, join_value, add_value}

at_key-at_key :
    (k : Text) (g f : Value → Value) (d : Fields)
    → at_key k g (at_key k f d) ≡ at_key k (λ v. g (f v)) d
unfolding at_key
at_key-at_key k g f end = refl
at_key-at_key k g f (field j v fs) = ground (arith, at_key-at_key k g f fs)

on_last-on_last :
    (g f : Fields → Fields) (vs : Items) → on_last g (on_last f vs) ≡ on_last (λ d. g (f d)) vs
unfolding on_last
on_last-on_last g f nil = refl
on_last-on_last g f (cons (scalar s) nil) = refl
on_last-on_last g f (cons (dict d) nil) = refl
on_last-on_last g f (cons (list v) nil) = refl
on_last-on_last g f (cons x (cons y nil)) = ap (cons x) (on_last-on_last g f (cons y nil))
on_last-on_last g f (cons x (cons y (cons z zs))) =
    ap (cons x) (on_last-on_last g f (cons y (cons z zs)))

on_section-on_section :
    (g f : Fields → Fields) (v : Value)
    → on_section g (on_section f v) ≡ on_section (λ d. g (f d)) v
unfolding on_section
on_section-on_section g f (scalar s) = refl
on_section-on_section g f (dict d) = refl
on_section-on_section g f (list vs) = ap list (on_last-on_last g f vs)

pub at_path-at_path :
    (p : List Text) (g f : Fields → Fields) (d : Fields)
    → at_path p g (at_path p f d) ≡ at_path p (λ e. g (f e)) d
unfolding at_path
at_path-at_path [] g f d = refl
at_path-at_path (k ∷ p) g f d =
    at_key-at_key k _ _ d
    ∙ ap (λ h. at_key k h d)
        (fun_ext λ v.
          on_section-on_section _ _ v
          ∙ ap (λ h. on_section h v) (fun_ext λ e. at_path-at_path p g f e))

pub at_path_snoc :
    (p : List Text) (k : Text) (f : Fields → Fields) (d : Fields)
    → at_path (p ++ k ∷ []) f d ≡ at_path p (at_key k (on_section f)) d
unfolding at_path
at_path_snoc [] k f d = refl
at_path_snoc (j ∷ p) k f d =
    ap (λ h. at_key j h d)
      (fun_ext λ v. ap (λ h. on_section h v) (fun_ext λ e. at_path_snoc p k f e))

on_last_id : (vs : Items) → on_last (λ d. d) vs ≡ vs
unfolding on_last
on_last_id nil = refl
on_last_id (cons (scalar s) nil) = refl
on_last_id (cons (dict d) nil) = refl
on_last_id (cons (list v) nil) = refl
on_last_id (cons x (cons y ys)) = ap (cons x) (on_last_id (cons y ys))

on_section_id : (v : Value) → on_section (λ d. d) v ≡ v
unfolding on_section
on_section_id (scalar s) = refl
on_section_id (dict d) = refl
on_section_id (list vs) = ap list (on_last_id vs)

at_key_id : (k : Text) (d : Fields) → at_key k (λ v. v) d ≡ d
unfolding at_key
at_key_id k end = refl
at_key_id k (field j v fs) = ground (arith, at_key_id k fs)

-- A write that changes nothing leaves the tree as it is.
pub at_path_id : (p : List Text) (d : Fields) → at_path p (λ e. e) d ≡ d
unfolding at_path
at_path_id [] d = refl
at_path_id (k ∷ p) d =
    ap (λ h. at_key k h d)
      (fun_ext λ v. ap (λ h. on_section h v) (fun_ext (at_path_id p)) ∙ on_section_id v)
    ∙ at_key_id k d

at_key-insert :
    (k : Text) (f : Value → Value) (v : Value) (d : Fields)
    → at_key k f (insert k v d) ≡ insert k (f v) d
unfolding at_key insert
at_key-insert k f v end = ground (arith, same_iff k k)
at_key-insert k f v (field j w fs) =
    ground (arith, same_iff k k, same_iff j k, at_key-insert k f v fs)

on_last-append_item :
    (f : Fields → Fields) (vs : Items) (e : Fields)
    → on_last f (append_item vs (dict e)) ≡ append_item vs (dict (f e))
unfolding on_last append_item
on_last-append_item f nil e = refl
on_last-append_item f (cons x nil) e = refl
on_last-append_item f (cons x (cons y ys)) e = ap (cons x) (on_last-append_item f (cons y ys) e)

on_section-join_value :
    (f : Fields → Fields) (old : Value) (e : Fields)
    → on_section f (join_value old (dict e)) ≡ join_value old (dict (f e))
unfolding on_section join_value
on_section-join_value f (scalar s) e = refl
on_section-join_value f (dict d) e = refl
on_section-join_value f (list vs) e = ap list (on_last-append_item f vs e)

-- What is written through a section just entered lands in the section that was added.
pub at_key-add_value :
    (k : Text) (f : Fields → Fields) (e d : Fields)
    → at_key k (on_section f) (add_value k (dict e) d) ≡ add_value k (dict (f e)) d
unfolding add_value
at_key-add_value k f e d = go (lookup k d) refl
  where
    go :
        (o : Option Value)
        → lookup k d ≡ o
        → at_key k (on_section f) (add_value k (dict e) d) ≡ add_value k (dict (f e)) d
    go none h = rw (h, add_value) (at_key-insert k _ _ d ∙ unfold on_section in refl)
    go (some old) h =
        rw (h, add_value)
          (at_key-insert k _ _ d ∙ ap (λ v. insert k v d) (on_section-join_value f old e))

pub lookup-insert :
    (k j : Text) (v : Value) (d : Fields)
    → lookup j (insert k v d) ≡ (if same k j then some v else lookup j d)
unfolding lookup insert
lookup-insert k j v end = refl
lookup-insert k j v (field i w fs) =
    ground (arith, same_iff k j, same_iff i k, same_iff i j, lookup-insert k j v fs)

pub insert-insert : (k : Text) (v w : Value) (d : Fields) → insert k w (insert k v d) ≡ insert k w d
unfolding insert
insert-insert k v w end = ground (arith, same_iff k k)
insert-insert k v w (field j x fs) =
    ground (arith, same_iff k k, same_iff j k, insert-insert k v w fs)

-- The calls that the lines of a tree lead to.
unfoldable mutual
  pub add_fields : Fields → Fields → Fields
  add_fields end d = d
  add_fields (field k v fs) d = add_fields fs (add_entry k v d)

  pub add_entry : Text → Value → Fields → Fields
  add_entry k (scalar s) d = add_value k (scalar s) d
  add_entry k (dict e) d = add_value k (dict (add_fields e end)) d
  add_entry k (list vs) d = add_items k vs d

  pub add_items : Text → Items → Fields → Fields
  add_items k nil d = d
  add_items k (cons v vs) d = add_items k vs (add_item k v d)

  pub add_item : Text → Value → Fields → Fields
  add_item k (scalar s) d = add_value k (scalar s) d
  add_item k (dict e) d = add_value k (dict (add_fields e end)) d
  add_item k (list vs) d = d
