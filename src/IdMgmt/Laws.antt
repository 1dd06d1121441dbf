-- ===== src/IdMgmt/Laws.antt =====
-- What the operations on one id do to the set of ids in use.
use crmsh.Prelude.{
  ◌≡◌, refl, Bool, false, not, ◌&&◌, ◌||◌, Option, none, some, List, [], ◌∷◌, ◌++◌, arith, Text,
  same, same_iff,
}
use crmsh.IdMgmt.Store.{Store, contains, without, is_used, save, remove}

-- The id that an attribute names, if it names one.
abbrev pub names : Option Text → Text → Bool
names none j = false
names (some []) j = false
names (some (c ∷ i)) j = same (c ∷ i) j

contains-append :
    (xs : List Text) (x j : Text) → contains (xs ++ x ∷ []) j ≡ (contains xs j || same x j)
unfolding contains
contains-append [] x j = ground arith
contains-append (y ∷ ys) x j = ground (arith, contains-append ys x j)

contains-without :
    (i : Text) (xs : List Text) (j : Text)
    → contains (without i xs) j ≡ (contains xs j && not (same i j))
unfolding contains without
contains-without i [] j = refl
contains-without i (x ∷ xs) j =
    ground (arith, contains-without i xs j, same_iff x i, same_iff x j, same_iff i j)

pub is_used-save :
    (o : Option Text) (s : Store) (j : Text) → is_used j (save o s) ≡ (is_used j s || names o j)
unfolding is_used save
is_used-save none s j = ground arith
is_used-save (some []) s j = ground arith
is_used-save (some (c ∷ i)) s j =
    ground (arith, contains-append s.ids (c ∷ i) j, same_iff (c ∷ i) j)

pub is_used-remove :
    (o : Option Text) (s : Store) (j : Text)
    → is_used j (remove o s) ≡ (is_used j s && not (names o j))
unfolding is_used remove
is_used-remove none s j = ground arith
is_used-remove (some []) s j = ground arith
is_used-remove (some (c ∷ i)) s j = ground (arith, contains-without (c ∷ i) s.ids j)
