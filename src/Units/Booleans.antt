-- ===== src/Units/Booleans.antt =====
-- The words for Booleans in crmsh/utils.py.
--
-- An option of a command is `absent` (`None` or `False`), `True`, or a word.
use crmsh.Prelude.{
  ◌≡◌, refl, Bool, true, false, ◌&&◌, ◌||◌, List, [], ◌∷◌, arith, Bool-cases, inl, inr,
  if◌then◌else◌, Text, codes, same, same-eq,
}
use crmsh.Units.Time.{lower}

pub data Opt : Type 0 where
  absent given : Opt
  word : Text → Opt

unfoldable pub one_of : Text → List Text → Bool
one_of t [] = false
one_of t (u ∷ us) = same t u || one_of t us

abbrev pub yes_words : List Text
yes_words = codes "yes" ∷ codes "true" ∷ codes "on" ∷ codes "1" ∷ []

abbrev pub no_words : List Text
no_words = codes "no" ∷ codes "false" ∷ codes "off" ∷ codes "0" ∷ []

unfoldable pub verify_boolean : Text → Bool
verify_boolean s = one_of (lower s) yes_words || one_of (lower s) no_words

unfoldable pub is_boolean_true : Opt → Bool
is_boolean_true absent = false
is_boolean_true given = true
is_boolean_true (word s) = one_of (lower s) yes_words

unfoldable pub is_boolean_false : Opt → Bool
is_boolean_false absent = true
is_boolean_false given = false
is_boolean_false (word s) = one_of (lower s) no_words

unfoldable pub canonical_boolean : Opt → Text
unfolding is_boolean_true
canonical_boolean o = if is_boolean_true o then codes "true" else codes "false"

one_of_yes : (t : Text) → one_of t yes_words ≡ true → one_of t no_words ≡ false
unfolding one_of same
one_of_yes t h = elim (Bool-cases (same t (codes "yes"))) [
  | inl e ↦ rw (same-eq t (codes "yes") e)
  | inr e1 ↦ elim (Bool-cases (same t (codes "true"))) [
    | inl e ↦ rw (same-eq t (codes "true") e)
    | inr e2 ↦ elim (Bool-cases (same t (codes "on"))) [
      | inl e ↦ rw (same-eq t (codes "on") e)
      | inr e3 ↦ elim (Bool-cases (same t (codes "1"))) [
        | inl e ↦ rw (same-eq t (codes "1") e)
        | inr e4 ↦ cc (rw (e1, e2, e3, e4) at h)
      ]
    ]
  ]
]

not_both : (o : Opt) → (is_boolean_true o && is_boolean_false o) ≡ false
unfolding is_boolean_true is_boolean_false
not_both absent = refl
not_both given = refl
not_both (word s) = elim (Bool-cases (one_of (lower s) yes_words)) [
  | inl e ↦ rw (one_of_yes (lower s) e) (ground arith)
  | inr e ↦ rw e
]

canonical_word :
    (b : Bool)
    → (verify_boolean (if b then codes "true" else codes "false") ≡ true)
      × (is_boolean_true (word (if b then codes "true" else codes "false")) ≡ b)
unfolding verify_boolean is_boolean_true one_of lower same
canonical_word true = (refl, refl)
canonical_word false = (refl, refl)

-- No option is both true and false, a word is one of the two exactly when `verify_boolean` accepts
-- it, and the canonical word of an option is accepted and stands for the same truth.
pub canonical_boolean_lem :
    (o : Opt) (s : Text)
    → ((is_boolean_true o && is_boolean_false o) ≡ false)
      × (verify_boolean s ≡ (is_boolean_true (word s) || is_boolean_false (word s)))
      × (verify_boolean (canonical_boolean o) ≡ true)
      × (is_boolean_true (word (canonical_boolean o)) ≡ is_boolean_true o)
unfolding verify_boolean is_boolean_true is_boolean_false canonical_boolean
canonical_boolean_lem o s =
    let (accepted, kept) = canonical_word (is_boolean_true o) in (not_both o, refl, accepted, kept)
