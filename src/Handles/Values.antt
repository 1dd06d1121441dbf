-- ===== src/Handles/Values.antt =====
-- The values of crmsh/handles.py, and how a path is looked up in a context of them.
use crmsh.Prelude.{
  Bool, true, false, ◌&&◌, not, Option, none, some, List, [], ◌∷◌, if◌then◌else◌, Text, same, codes,
  is_empty,
}
use crmsh.Prelude.Results.{Result, ok, err, ◌>>=◌}

-- What a template may be given: the objects of Python that it tells apart, with no numbers (0 counts
-- as `False`). `called obj v` is
-- `handles.value(obj, v)`, which is indexed as `obj` and called for `v`.
mutual
  pub data Obj : Type 0 where
    nothing : Obj
    boolean : Bool → Obj
    text : Text → Obj
    list : Objs → Obj
    dict : Dict → Obj
    called : Dict → Obj → Obj

  pub data Objs : Type 0 where
    nil : Objs
    cons : Obj → Objs → Objs

  pub data Dict : Type 0 where
    end : Dict
    entry : Text → Obj → Dict → Dict

-- `AttributeError` of a value with no `get`, and the two messages of `ValueError`; `too_long` is the
-- end of the fuel.
pub data Error : Type 0 where
  no_get not_set unclosed too_long : Error

unfoldable pub lookup : Text → Dict → Obj
lookup key end = nothing
lookup key (entry k v d) = if same k key then v else lookup key d

-- `root[x] = v`
unfoldable pub insert : Text → Obj → Dict → Dict
insert key v end = entry key v end
insert key v (entry k w d) = if same k key then entry k v d else entry k w (insert key v d)

-- `while r and p is not None: p, r = p.get(r[0]), r[1:]`; the value and what is left of the path.
unfoldable pub follow : List Text → Obj → Result Error (Obj × List Text)
unfolding lookup
follow [] p = ok (p, [])
follow (x ∷ r) nothing = ok (nothing, x ∷ r)
follow (x ∷ r) (dict d) = follow r (lookup x d)
follow (x ∷ r) (called d v) = follow r (lookup x d)
follow (x ∷ r) (boolean b) = err no_get
follow (x ∷ r) (text s) = err no_get
follow (x ∷ r) (list xs) = err no_get

-- `if callable(p): p = p()`
abbrev pub call : Obj → Obj
call (called d v) = v
call nothing = nothing
call (boolean b) = boolean b
call (text s) = text s
call (list xs) = list xs
call (dict d) = dict d

abbrev pub is_nothing : Obj → Bool
is_nothing nothing = true
is_nothing (boolean b) = false
is_nothing (text s) = false
is_nothing (list xs) = false
is_nothing (dict d) = false
is_nothing (called d v) = false

-- What one item of the context gives: a value, or the next item has its turn.
unfoldable pub accept : Bool → Obj × List Text → Option Obj
accept strict (p, r) =
    if strict && not (is_empty r) then none else if is_nothing (call p) then none else some (call p)

-- `_resolve`
unfoldable pub resolve : List Text → List Dict → Bool → Result Error Obj
unfolding follow accept
resolve path [] strict = if strict then err not_set else ok nothing
resolve path (values ∷ context) strict = do
  found ← follow path (dict values)
  elim (accept strict found) [ some v ↦ ok v | none ↦ resolve path context strict ]

-- `_push`: every key but the last gets a new `dict` at the root, and the value goes into the last of
-- these.
unfoldable pub push_root : Text → List Text → Obj → Dict → Dict
unfolding insert
push_root x [] value root = insert x value root
push_root x (y ∷ []) value root = insert x (dict (entry y value end)) root
push_root x (y ∷ z ∷ path) value root = push_root y (z ∷ path) value (insert x (dict end) root)

unfoldable pub push : List Text → Obj → List Dict → List Dict
unfolding push_root
push [] value context = context
push (x ∷ path) value context = push_root x path value end ∷ context

-- `not obj`
unfoldable pub is_falsy : Obj → Bool
is_falsy nothing = true
is_falsy (boolean b) = not b
is_falsy (text s) = is_empty s
is_falsy (list nil) = true
is_falsy (list (cons x xs)) = false
is_falsy (dict end) = true
is_falsy (dict (entry k v d)) = false
is_falsy (called d v) = false

-- `_textify`; what `str` gives for a list or an object is a parameter.
unfoldable pub textify : (Obj → Text) → Obj → Text
textify show nothing = []
textify show (boolean b) = if b then codes "true" else codes "false"
textify show (text s) = s
textify show (list xs) = show (list xs)
textify show (dict d) = show (dict d)
textify show (called d v) = show (called d v)
