-- ===== src/IdMgmt/Fresh.antt =====
-- `new`, `rename`, `push_state` and `pop_state` of crmsh/idmgmt.py.
use crmsh.Prelude.{
  ℕ, zero, suc, ◌+◌, ◌<◌, ◌≤◌, ◌≡◌, refl, ap, true, false, not, ◌&&◌, ◌||◌, [], ◌∷◌, arith, inl,
  inr, ◌==◌, Bool-cases, if◌then◌else◌, some, Text, same, is_empty, replace_char, str, All-str, All,
  All-append,
}
use native.Mathlib.Decide.{ℕ_discrete}
use crmsh.Xml.{Node}
use crmsh.IdMgmt.Store.{Store, is_used, save, remove, rename}
use crmsh.IdMgmt.New.{dashed, proposed_id, try_ids, gen_free_id, new}
use crmsh.IdMgmt.Laws.{names, is_used-save, is_used-remove}

-- The loop ends with an unused id, if one of the ids that it tries is unused.
try_ids-free :
    (rounds cnt : ℕ) (i : Text) (s : Store) (k : ℕ)
    → cnt ≤ k
    → k < cnt + rounds
    → is_used (dashed i (str k)) s ≡ false
    → is_used (try_ids rounds cnt i s) s ≡ false
unfolding try_ids
try_ids-free zero cnt i s k le lt h = absurd (omega arith)
try_ids-free (suc r) cnt i s k le lt h = elim (Bool-cases (is_used (dashed i (str cnt)) s)) [
  | inr free ↦ rw free free
  | inl busy ↦ rw busy (try_ids-free r (cnt + 1) i s k (later busy) (omega arith) h)
]
  where
    later : is_used (dashed i (str cnt)) s ≡ true → cnt + 1 ≤ k
    later busy = elim (ℕ_discrete cnt k) [
      | yes e ↦ cc (ap (λ m. is_used (dashed i (str m)) s) e)
      | no ne ↦ omega arith
    ]

-- No `#` stands in the text.
abbrev pub NoHash : Text → Type 0
NoHash = All (λ c. c == b'#' ≡ false)

replace_char-NoHash : (t : Text) → NoHash t → replace_char b'#' b'.' t ≡ t
unfolding replace_char
replace_char-NoHash [] h = refl
replace_char-NoHash (c ∷ t) h = rw h.0 (ap (λ u. c ∷ u) (replace_char-NoHash t h.1))

try_ids-NoHash :
    (rounds cnt : ℕ) (i : Text) (s : Store) → NoHash i → NoHash (try_ids rounds cnt i s)
unfolding try_ids
try_ids-NoHash zero cnt i s h = h
try_ids-NoHash (suc r) cnt i s h = elim (Bool-cases (is_used (dashed i (str cnt)) s)) [
  | inr free ↦
      rw free
        (All-append _ i _ h (refl, All-str (λ c. c == b'#' ≡ false) cnt (λ d lt. ground arith)))
  | inl busy ↦ rw busy (try_ids-NoHash r (cnt + 1) i s h)
]

-- The id that `new` has before `#` is replaced.
chosen : Node → Text → Store → Text
chosen n pfx s =
    if is_used (proposed_id n pfx) s then gen_free_id (proposed_id n pfx) s else proposed_id n pfx

chosen-free :
    (n : Node) (pfx : Text) (s : Store) (k : ℕ)
    → k < 99
    → is_used (dashed (proposed_id n pfx) (str k)) s ≡ false
    → is_used (chosen n pfx s) s ≡ false
unfolding chosen gen_free_id
chosen-free n pfx s k lt h = elim (Bool-cases (is_used (proposed_id n pfx) s)) [
  | inl busy ↦ rw busy (try_ids-free 99 0 (proposed_id n pfx) s k (omega arith) (omega arith) h)
  | inr free ↦ rw free free
]

chosen-NoHash :
    (n : Node) (pfx : Text) (s : Store) → NoHash (proposed_id n pfx) → NoHash (chosen n pfx s)
unfolding chosen gen_free_id
chosen-NoHash n pfx s h = elim (Bool-cases (is_used (proposed_id n pfx) s)) [
  | inl busy ↦ rw busy (try_ids-NoHash 99 0 (proposed_id n pfx) s h)
  | inr free ↦ rw free h
]

new-chosen :
    (n : Node) (pfx : Text) (s : Store)
    → new n pfx s ≡ (
      replace_char b'#' b'.' (chosen n pfx s),
      save (some (replace_char b'#' b'.' (chosen n pfx s))) s,
    )
unfolding new chosen
new-chosen n pfx s = refl

-- If the proposed id has no `#` and one of its 99 numbered variants is unused, the id that `new`
-- returns was not in use, and the ids in use afterwards are those of before and that one (unless
-- it is empty).
pub new_is_fresh :
    (n : Node) (pfx : Text) (s : Store) (k : ℕ)
    → NoHash (proposed_id n pfx)
    → k < 99
    → is_used (dashed (proposed_id n pfx) (str k)) s ≡ false
    → (is_used (new n pfx s).0 s ≡ false)
      × ((j : Text) → is_used j (new n pfx s).1 ≡ (is_used j s || names (some (new n pfx s).0) j))
new_is_fresh n pfx s k nh lt h =
    rw (new-chosen n pfx s, replace_char-NoHash (chosen n pfx s) (chosen-NoHash n pfx s nh))
      (chosen-free n pfx s k lt h, is_used-save (some (chosen n pfx s)) s)

-- An id with a `#` is tested for use before the `#` is replaced: where only the replaced id is in
-- use, `new` returns an id that is in use already.
pub new_hash_clash :
    (n : Node) (pfx : Text) (s : Store)
    → is_used (proposed_id n pfx) s ≡ false
    → is_used (replace_char b'#' b'.' (proposed_id n pfx)) s ≡ true
    → is_used (new n pfx s).0 s ≡ true
unfolding new
new_hash_clash n pfx s free busy = rw free busy

-- For two ids that are not empty, `rename` puts the new one in the place of the old one if the old one
-- is in use and the new one is not, and otherwise changes nothing.
pub rename_lem :
    (i j k : Text) (s : Store)
    → is_empty i ≡ false
    → is_empty j ≡ false
    → is_used k (rename (some i) (some j) s) ≡ (
        if is_used i s && not (is_used j s)
        then (is_used k s && not (same i k)) || same j k
        else is_used k s)
unfolding rename
rename_lem [] j k s hi hj = cc
rename_lem (c ∷ i) [] k s hi hj = cc
rename_lem (c ∷ i) (d ∷ j) k s hi hj = ground (
  arith,
  is_used-save (some (d ∷ j)) (remove (some (c ∷ i)) s) k,
  is_used-remove (some (c ∷ i)) s k,
)
