-- ===== src/ConfFormat/Query/Removed.antt =====
-- What `get` of crmsh/corosync_config_format.py finds after a `remove`.
use crmsh.Prelude.{
  ℕ, zero, suc, ◌≡◌, refl, ap, ◌∙◌, sym, subst, false, Option, none, some, List, [], ◌∷◌,
  if◌then◌else◌, arith, Text, same, same_refl, same_iff,
}
use crmsh.Prelude.Results.{Result, ok, >>=-eq-ok, ok_inj}
use crmsh.ConfFormat.Dom.{
  Value, scalar, dict, list, Items, nil, cons, Fields, end, field, lookup, insert,
}
use crmsh.ConfFormat.DomLaws.{lookup-insert}
use crmsh.ConfFormat.Query.Paths.{ConfError, pick, pick_item, child, or_key_error, get}
use crmsh.ConfFormat.Query.Removal.{
  on_pick, on_item, at_node, delete, delete_item, remove_value, remove_key, remove,
}

lookup-delete :
    (j key : Text) (d : Fields)
    → lookup j (delete key d) ≡ (if same key j then none else lookup j d)
unfolding lookup delete
lookup-delete j key end = ground arith
lookup-delete j key (field k w fs) =
    ground (arith, same_iff k key, same_iff k j, same_iff key j, lookup-delete j key fs)

-- A change that only ever gives a `dict`.
abbrev GivesDict : (Value → Result ConfError Value) → Type 0
GivesDict f = (n n' : Value) → f n ≡ ok n' → (d : Fields) × (n' ≡ dict d)

-- A change at one node: the node that is found before, and the one that is found afterwards.
abbrev Changed :
    (Value → Result ConfError Value) → Result ConfError Value → Result ConfError Value → Type 0
Changed f before after = (n n' : Value) × (before ≡ ok n) × (f n ≡ ok n') × (after ≡ ok n')

module _ (f : Value → Result ConfError Value) (gives : GivesDict f) (index : ℕ) where
  pick_given : (n n' : Value) → f n ≡ ok n' → pick index n' ≡ ok n'
  unfolding pick
  pick_given n n' e = let (d, e') = gives n n' e in rw e' refl

  mutual
    unfolding on_pick on_item pick pick_item

    on_pick-Changed :
        (v v' : Value) → on_pick index f v ≡ ok v' → Changed f (pick index v) (pick index v')
    on_pick-Changed (scalar s) v' h = (scalar s, v', refl, h, pick_given (scalar s) v' h)
    on_pick-Changed (dict d) v' h = (dict d, v', refl, h, pick_given (dict d) v' h)
    on_pick-Changed (list vs) v' h =
        let (vs', e, e') = >>=-eq-ok (on_item index index f vs) _ v' h in
        subst (λ x. Changed f (pick_item index index vs) (pick index x)) (ok_inj _ _ e')
          (on_item-Changed index vs vs' e)

    on_item-Changed :
        (i : ℕ) (vs vs' : Items)
        → on_item index i f vs ≡ ok vs'
        → Changed f (pick_item index i vs) (pick_item index i vs')
    on_item-Changed i nil vs' h = cc
    on_item-Changed zero (cons x xs) vs' h =
        let (x', e, e') = >>=-eq-ok (on_pick index f x) _ vs' h in
        subst (λ l. Changed f (pick index x) (pick_item index zero l)) (ok_inj _ _ e')
          (on_pick-Changed x x' e)
    on_item-Changed (suc i) (cons x xs) vs' h =
        let (xs', e, e') = >>=-eq-ok (on_item index i f xs) _ vs' h in
        subst (λ l. Changed f (pick_item index i xs) (pick_item index (suc i) l)) (ok_inj _ _ e')
          (on_item-Changed i xs xs' e)

module _ (f : Value → Result ConfError Value) (gives : GivesDict f) (index : ℕ) where
  at_node-GivesDict : (path : List Text) → GivesDict (at_node path index f)
  unfolding at_node
  at_node-GivesDict [] n n' h = gives n n' h
  at_node-GivesDict (key ∷ path) (scalar s) n' h = cc
  at_node-GivesDict (key ∷ path) (list vs) n' h = cc
  at_node-GivesDict (key ∷ path) (dict d) n' h =
      let (v, e, e') = >>=-eq-ok (or_key_error (lookup key d)) _ n' h in
      let (v', e2, e3) = >>=-eq-ok (on_pick index (at_node path index f) v) _ n' e' in
      (insert key v' d, sym (ok_inj _ _ e3))

  at_node-Changed :
      (path : List Text) (dom dom' : Value)
      → at_node path index f dom ≡ ok dom'
      → Changed f (get path index dom) (get path index dom')
  unfolding at_node get child
  at_node-Changed [] dom dom' h = (dom, dom', refl, h, refl)
  at_node-Changed (key ∷ path) (scalar s) dom' h = cc
  at_node-Changed (key ∷ path) (list vs) dom' h = cc
  at_node-Changed (key ∷ path) (dict d) dom' h =
      let (v, e, e') = >>=-eq-ok (or_key_error (lookup key d)) _ dom' h in
      let (v', e2, e3) = >>=-eq-ok (on_pick index (at_node path index f) v) _ dom' e' in
      let (m, m', p, c, p') =
        on_pick-Changed (at_node path index f) (at_node-GivesDict path) index v v' e2 in
      let (n, n', g, c', g') = at_node-Changed path m m' c in
      let found : or_key_error (lookup key (insert key v' d)) ≡ ok v' =
        rw (lookup-insert key key v' d) (rw (same_refl key) refl) in
      let after : get (key ∷ path) index (dict (insert key v' d)) ≡ ok n' = rw found (rw p' g') in
      (
        n,
        n',
        rw e (rw p g),
        c',
        subst (λ x. get (key ∷ path) index x ≡ ok n') (ok_inj _ _ e3) after,
      )

-- What becomes of the key itself: one item less of a list, and nothing left of anything else.
abbrev pub Gone : ℕ → Option Value → Option Value → Type 0
Gone index none after = ⊥
Gone index (some (scalar s)) after = after ≡ none
Gone index (some (dict d)) after = after ≡ none
Gone index (some (list vs)) after =
    (vs' : Items) × (delete_item index vs ≡ ok vs') × (after ≡ some (list vs'))

deleted_self : (key : Text) (d : Fields) → lookup key (delete key d) ≡ none
deleted_self key d = rw (lookup-delete key key d) (rw (same_refl key))

deleted_other :
    (key other : Text) (d : Fields)
    → same key other ≡ false
    → lookup other (delete key d) ≡ lookup other d
deleted_other key other d ne = rw (lookup-delete other key d) (rw ne)

remove_value-Gone :
    (key other : Text) (index : ℕ) (d : Fields) (o : Option Value) (n' : Value)
    → same key other ≡ false
    → remove_value key index o d ≡ ok n'
    → (d' : Fields) × (n' ≡ dict d')
      × (lookup other d' ≡ lookup other d)
      × Gone index o (lookup key d')
unfolding remove_value
remove_value-Gone key other index d none n' ne h = cc
remove_value-Gone key other index d (some (scalar s)) n' ne h =
    (delete key d, sym (ok_inj _ _ h), deleted_other key other d ne, deleted_self key d)
remove_value-Gone key other index d (some (dict m)) n' ne h =
    (delete key d, sym (ok_inj _ _ h), deleted_other key other d ne, deleted_self key d)
remove_value-Gone key other index d (some (list vs)) n' ne h =
    let (vs', e, e') = >>=-eq-ok (delete_item index vs) _ n' h in
    (
      insert key (list vs') d,
      sym (ok_inj _ _ e'),
      rw (lookup-insert other key (list vs') d) (rw ne),
      (vs', e, rw (lookup-insert key key (list vs') d) (rw (same_refl key))),
    )

remove_value-dict :
    (key : Text) (index : ℕ) (d : Fields) (o : Option Value) (n' : Value)
    → remove_value key index o d ≡ ok n'
    → (d' : Fields) × (n' ≡ dict d')
unfolding remove_value
remove_value-dict key index d none n' h = cc
remove_value-dict key index d (some (scalar s)) n' h = (delete key d, sym (ok_inj _ _ h))
remove_value-dict key index d (some (dict m)) n' h = (delete key d, sym (ok_inj _ _ h))
remove_value-dict key index d (some (list vs)) n' h =
    let (vs', e, e') = >>=-eq-ok (delete_item index vs) _ n' h in
    (insert key (list vs') d, sym (ok_inj _ _ e'))

remove_key-Gone :
    (key other : Text) (index : ℕ) (n n' : Value)
    → same key other ≡ false
    → remove_key key index n ≡ ok n'
    → (d d' : Fields) × (n ≡ dict d)
      × (n' ≡ dict d')
      × (lookup other d' ≡ lookup other d)
      × Gone index (lookup key d) (lookup key d')
unfolding remove_key
remove_key-Gone key other index (scalar s) n' ne h = cc
remove_key-Gone key other index (list vs) n' ne h = cc
remove_key-Gone key other index (dict d) n' ne h =
    let (d', e, kept, gone) = remove_value-Gone key other index d (lookup key d) n' ne h in
    (d, d', refl, e, kept, gone)

remove_key-GivesDict : (key : Text) (index : ℕ) → GivesDict (remove_key key index)
unfolding remove_key
remove_key-GivesDict key index (scalar s) n' h = cc
remove_key-GivesDict key index (list vs) n' h = cc
remove_key-GivesDict key index (dict d) n' h = remove_value-dict key index d (lookup key d) n' h

-- After a `remove` that succeeds, `get` finds the `dict` above the key where it was; the key has lost
-- the item at the index, if it led to a list, and otherwise is gone, and any other key of that
-- `dict` is as it was.
pub remove-Gone :
    (parent : List Text) (key other : Text) (index : ℕ) (dom dom' : Value)
    → same key other ≡ false
    → remove parent key index dom ≡ ok dom'
    → (d d' : Fields) × (get parent index dom ≡ ok (dict d))
      × (get parent index dom' ≡ ok (dict d'))
      × (lookup other d' ≡ lookup other d)
      × Gone index (lookup key d) (lookup key d')
unfolding remove
remove-Gone parent key other index dom dom' ne h =
    let (n, n', g, e, g') =
      at_node-Changed (remove_key key index) (remove_key-GivesDict key index) index parent dom dom'
        h in
    let (d, d', is_dict, is_dict', kept, gone) = remove_key-Gone key other index n n' ne e in
    (d, d', g ∙ ap ok is_dict, g' ∙ ap ok is_dict', kept, gone)
