-- ===== src/Corosync/Written.antt =====
-- What `ConfParser.set` of crmsh/corosync.py writes, `get` reads back.
use crmsh.Prelude.{
  ℕ, zero, suc, ◌≡◌, refl, ◌∙◌, subst, Bool, ◌&&◌, Option, none, some, List, [], ◌∷◌, ◌++◌, ◌==◌,
  ==_iff, ltb, Text, same_refl, Bool-cases, inl, inr,
}
use crmsh.Prelude.Results.{Result, ok, ◌>>=◌, >>=-eq-ok, ok_inj}
use crmsh.ConfFormat.Dom.{Value, scalar, dict, list, Items, nil, cons, Fields, end, lookup, insert}
use crmsh.ConfFormat.DomLaws.{lookup-insert}
use crmsh.ConfFormat.Query.Paths.{ConfError, pick, pick_item, child, get}
use crmsh.Corosync.Config.{put_item, set_last, in_item, set_below, raw_set, set}

-- What `get` makes of a key that was just written.
get-insert :
    (key : Text) (ks : List Text) (index : ℕ) (v : Value) (d : Fields)
    → get (key ∷ ks) index (dict (insert key v d)) ≡ (pick index v >>= λ v'. get ks index v')
unfolding get child
get-insert key ks index v d = rw (lookup-insert key key v d) (rw (same_refl key))

put_item-pick :
    (index i : ℕ) (s : Text) (li li' : Items)
    → put_item i (scalar s) li ≡ ok li'
    → pick_item index i li' ≡ ok (scalar s)
unfolding put_item pick pick_item
put_item-pick index zero s nil li' h =
    subst (λ l. pick_item index zero l ≡ ok (scalar s)) (ok_inj _ _ h) refl
put_item-pick index (suc i) s nil li' h = cc
put_item-pick index zero s (cons x xs) li' h =
    subst (λ l. pick_item index zero l ≡ ok (scalar s)) (ok_inj _ _ h) refl
put_item-pick index (suc i) s (cons x xs) li' h =
    let (xs', e, e') = >>=-eq-ok (put_item i (scalar s) xs) _ li' h in
    subst (λ l. pick_item index (suc i) l ≡ ok (scalar s)) (ok_inj _ _ e')
      (put_item-pick index i s xs xs' e)

-- No key of the path but the last leads to a string.
abbrev pub ClearItems : (Fields → Type 0) → Items → Type 0
ClearItems R nil = Unit
ClearItems R (cons (dict n) xs) = R n × ClearItems R xs
ClearItems R (cons (scalar s) xs) = ClearItems R xs
ClearItems R (cons (list li) xs) = ClearItems R xs

abbrev pub ClearBelow : (Fields → Type 0) → Option Value → Type 0
ClearBelow R none = Unit
ClearBelow R (some (scalar s)) = ⊥
ClearBelow R (some (dict n)) = R n
ClearBelow R (some (list li)) = ClearItems R li

abbrev pub Clear : Text → List Text → Fields → Type 0
Clear key [] d = Unit
Clear key (k ∷ ks) d = ClearBelow (Clear k ks) (lookup key d)

Clear-end : (key : Text) (ks : List Text) → Clear key ks end
unfolding lookup
Clear-end key [] = tt
Clear-end key (k ∷ ks) = tt

-- A step of the path: what the rest of it, `next`, writes at a section is read back there.
module _ (R : Fields → Type 0) (fresh : R end) (next : Fields → Result ConfError Fields)
    (key : Text) (path : List Text) (index : ℕ) (s : Text)
    (written : (n n' : Fields)
      → R n
      → next n ≡ ok n'
      → get path index (dict n') ≡ ok (scalar s)) where
  in_item-pick :
      (i : ℕ) (li li' : Items)
      → ClearItems R li
      → in_item i next li ≡ ok li'
      → (n' : Fields) × (pick_item index i li' ≡ ok (dict n'))
        × (get path index (dict n') ≡ ok (scalar s))
  unfolding in_item pick pick_item
  in_item-pick zero nil li' c h =
      let (n', e, e') = >>=-eq-ok (next end) _ li' h in
      (
        n',
        subst (λ l. pick_item index zero l ≡ ok (dict n')) (ok_inj _ _ e') refl,
        written end n' fresh e,
      )
  in_item-pick (suc i) nil li' c h = cc
  in_item-pick zero (cons (dict n) xs) li' c h =
      let (n', e, e') = >>=-eq-ok (next n) _ li' h in
      (
        n',
        subst (λ l. pick_item index zero l ≡ ok (dict n')) (ok_inj _ _ e') refl,
        written n n' c.0 e,
      )
  in_item-pick zero (cons (scalar t) xs) li' c h = cc
  in_item-pick zero (cons (list vs) xs) li' c h = cc
  in_item-pick (suc i) (cons x xs) li' c h =
      let (xs', e, e') = >>=-eq-ok (in_item i next xs) _ li' h in
      let (n', p, g) = in_item-pick i xs xs' (ClearItems_tail x xs c) e in
      (n', subst (λ l. pick_item index (suc i) l ≡ ok (dict n')) (ok_inj _ _ e') p, g)
    where
      ClearItems_tail : (x : Value) (xs : Items) → ClearItems R (cons x xs) → ClearItems R xs
      ClearItems_tail (dict n) xs c = c.1
      ClearItems_tail (scalar t) xs c = c
      ClearItems_tail (list vs) xs c = c

  -- A key that now leads to `v` leads on to the rest of the path.
  get_through :
      (v : Value) (n' d d' : Fields)
      → pick index v ≡ ok (dict n')
      → get path index (dict n') ≡ ok (scalar s)
      → ◌≡◌ {A = Result ConfError Fields} (ok (insert key v d)) (ok d')
      → get (key ∷ path) index (dict d') ≡ ok (scalar s)
  get_through v n' d d' p g h =
      subst (λ x. get (key ∷ path) index (dict x) ≡ ok (scalar s)) (ok_inj _ _ h)
        (get-insert key path index v d ∙ rw p g)

  set_below-get :
      (known : Bool) (o : Option Value) (d d' : Fields)
      → ClearBelow R o
      → set_below known index key next o d ≡ ok d'
      → get (key ∷ path) index (dict d') ≡ ok (scalar s)
  unfolding set_below pick pick_item
  set_below-get known none d d' c h =
      let (n', e, e') = >>=-eq-ok (next end) _ d' h in
      get_through (dict n') n' d d' refl (written end n' fresh e) e'
  set_below-get known (some (scalar t)) d d' c h = absurd c
  set_below-get known (some (list li)) d d' c h =
      let (li', e, e') = >>=-eq-ok (in_item index next li) _ d' h in
      let (n', p, g) = in_item-pick index li li' c e in get_through (list li') n' d d' p g e'
  set_below-get known (some (dict n)) d d' c h = elim (Bool-cases (ltb 0 index && known)) [
    | inr plain ↦
        let (n', e, e') = >>=-eq-ok (next n) _ d' (rw plain at h) in
        get_through (dict n') n' d d' refl (written n n' c e) e'
    | inl listed ↦ elim (Bool-cases (index == 1)) [
      | inr far ↦ cc (rw (listed, far) at h)
      | inl second ↦
          let (m, e, e') = >>=-eq-ok (next end) _ d' (rw (listed, second) at h) in
          get_through (list (cons (dict n) (cons (dict m) nil))) m d d'
            (rw ((==_iff index 1).0 second) refl) (written end m fresh e) e'
    ]
  ]

get_last :
    (index : ℕ) (v : Value) (s key : Text) (d d' : Fields)
    → pick index v ≡ ok (scalar s)
    → ◌≡◌ {A = Result ConfError Fields} (ok (insert key v d)) (ok d')
    → get (key ∷ []) index (dict d') ≡ ok (scalar s)
unfolding get
get_last index v s key d d' p h =
    subst (λ x. get (key ∷ []) index (dict x) ≡ ok (scalar s)) (ok_inj _ _ h)
      (get-insert key [] index v d ∙ rw p)

set_last-get :
    (index : ℕ) (s key : Text) (o : Option Value) (d d' : Fields)
    → set_last index (scalar s) key o d ≡ ok d'
    → get (key ∷ []) index (dict d') ≡ ok (scalar s)
unfolding set_last pick pick_item
set_last-get index s key none d d' h = get_last index (scalar s) s key d d' refl h
set_last-get index s key (some (scalar t)) d d' h = get_last index (scalar s) s key d d' refl h
set_last-get index s key (some (dict n)) d d' h = get_last index (scalar s) s key d d' refl h
set_last-get index s key (some (list li)) d d' h =
    let (li', e, e') = >>=-eq-ok (put_item index (scalar s) li) _ d' h in
    get_last index (list li') s key d d' (put_item-pick index index s li li' e) e'

raw_set-get :
    (ks : List Text) (stack : List Text) (index : ℕ) (s key : Text) (d d' : Fields)
    → Clear key ks d
    → raw_set stack index (scalar s) key ks d ≡ ok d'
    → get (key ∷ ks) index (dict d') ≡ ok (scalar s)
unfolding raw_set
raw_set-get [] stack index s key d d' c h = set_last-get index s key (lookup key d) d d' h
raw_set-get (k ∷ ks) stack index s key d d' c h =
    set_below-get (Clear k ks) (Clear-end k ks) _ key (k ∷ ks) index s
      (λ n n' r e. raw_set-get ks (stack ++ key ∷ []) index s k n n' r e) _ (lookup key d) d d' c h

-- If no key of the path but the last leads to a string and `set` succeeds, `get` reads the value
-- back at the same path and index.
pub set-get :
    (key : Text) (path : List Text) (s : Text) (index : ℕ) (dom dom' : Fields)
    → Clear key path dom
    → set key path (scalar s) index dom ≡ ok dom'
    → get (key ∷ path) index (dict dom') ≡ ok (scalar s)
unfolding set
set-get key path s index dom dom' c h = raw_set-get path [] index s key dom dom' c h
