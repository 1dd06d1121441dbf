-- ===== src/Corosync/Config.antt =====
-- The class `ConfParser` of crmsh/corosync.py on the tree of the configuration.
--
-- A path is its first key and the others. What an exception leaves behind of a change is left out:
-- nothing is saved then.
use crmsh.Prelude.{
  ℕ, zero, suc, Bool, false, ◌&&◌, ◌||◌, Option, none, some, List, [], ◌∷◌, ◌++◌, ◌==◌, ltb,
  if◌then◌else◌, Text, same, codes, ◌≡◌, refl,
}
use crmsh.Prelude.Results.{Result, ok, err, ◌>>=◌}
use crmsh.ConfFormat.Dom.{
  Value, scalar, dict, list, Items, nil, cons, Fields, end, field, lookup, insert,
}
use crmsh.ConfFormat.Query.Paths.{ConfError, index_error, type_error, get, get_all}

-- `ConfParser.get` and `ConfParser.get_all`
unfoldable pub get_or_none : List Text → ℕ → Value → Option Value
get_or_none path index dom = elim (get path index dom) [ ok v ↦ some v | err e ↦ none ]

unfoldable pub get_all_or_empty : List Text → Value → List Value
get_all_or_empty path dom = elim (get_all path dom) [ ok vs ↦ vs | err e ↦ [] ]

-- `COROSYNC_KNOWN_SEC_NAMES_WITH_LIST`
unfoldable pub is_known_list : List Text → Bool
is_known_list (a ∷ b ∷ []) =
    (same a (codes "totem") && same b (codes "interface"))
    || (same a (codes "nodelist") && same b (codes "node"))
is_known_list _ = false

-- The last step of a path into a list: a value in place of an item, or behind the last one.
unfoldable pub put_item : ℕ → Value → Items → Result ConfError Items
put_item zero value nil = ok (cons value nil)
put_item (suc i) value nil = err index_error
put_item zero value (cons x xs) = ok (cons value xs)
put_item (suc i) value (cons x xs) = do xs' ← put_item i value xs; ok (cons x xs')

unfoldable pub set_last : ℕ → Value → Text → Option Value → Fields → Result ConfError Fields
unfolding put_item
set_last index value key none d = ok (insert key value d)
set_last index value key (some (scalar s)) d = ok (insert key value d)
set_last index value key (some (dict n)) d = ok (insert key value d)
set_last index value key (some (list li)) d = do
  li' ← put_item index value li
  ok (insert key (list li') d)

-- A step through a list: into an item, or into a new `dict` behind the last one.
unfoldable pub in_item : ℕ → (Fields → Result ConfError Fields) → Items → Result ConfError Items
in_item zero next nil = do n ← next end; ok (cons (dict n) nil)
in_item (suc i) next nil = err index_error
in_item zero next (cons (dict n) xs) = do n' ← next n; ok (cons (dict n') xs)
in_item zero next (cons (scalar s) xs) = err type_error
in_item zero next (cons (list li) xs) = err type_error
in_item (suc i) next (cons x xs) = do xs' ← in_item i next xs; ok (cons x xs')

-- A step that is not the last; a string at the key does not lead on, and `node` stays what it is.
unfoldable pub set_below :
    Bool
    → ℕ
    → Text
    → (Fields → Result ConfError Fields)
    → Option Value
    → Fields
    → Result ConfError Fields
unfolding in_item
set_below known index key next none d = do n ← next end; ok (insert key (dict n) d)
set_below known index key next (some (dict n)) d =
    if ltb 0 index && known
    then (if index == 1
        then (do m ← next end; ok (insert key (list (cons (dict n) (cons (dict m) nil))) d))
        else err index_error)
    else (do n' ← next n; ok (insert key (dict n') d))
set_below known index key next (some (list li)) d = do
  li' ← in_item index next li
  ok (insert key (list li') d)
set_below known index key next (some (scalar s)) d = next d

-- `_raw_set`, with the keys passed so far.
unfoldable pub raw_set : List Text → ℕ → Value → Text → List Text → Fields → Result ConfError Fields
unfolding set_last set_below
raw_set stack index value key [] d = set_last index value key (lookup key d) d
raw_set stack index value key (k ∷ ks) d =
    set_below (is_known_list (stack ++ key ∷ [])) index key
      (raw_set (stack ++ key ∷ []) index value k ks) (lookup key d) d

-- `ConfParser.set`
unfoldable pub set : Text → List Text → Value → ℕ → Fields → Result ConfError Fields
unfolding raw_set
set key path value index dom = raw_set [] index value key path dom

abbrev token : Fields
token = field (codes "token") (scalar (codes "5000")) end

sets_new_section :
    set (codes "totem") (codes "token" ∷ []) (scalar (codes "5000")) 0 end
    ≡ ok (field (codes "totem") (dict token) end)
unfolding set lookup insert
sets_new_section = refl

-- A path through a string ends up beside it.
passes_a_string :
    set (codes "token") (codes "max" ∷ []) (scalar (codes "9")) 0 token
    ≡ ok (
        field
          (codes "token")
          (scalar (codes "5000"))
          (field (codes "max") (scalar (codes "9")) end))
unfolding set lookup insert same
passes_a_string = refl
