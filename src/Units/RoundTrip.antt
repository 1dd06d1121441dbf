-- ===== src/Units/RoundTrip.antt =====
-- What `crm_msec` of crmsh/utils.py reads from a number followed by letters.
use crmsh.Prelude.{
  ℕ, zero, suc, ◌+◌, ◌/◌, ◌<◌, ◌≡◌, refl, ap, ◌∙◌, true, false, [], ◌∷◌, ◌++◌, ltb, arith,
  Bool-cases, inl, inr, Text, is_space, is_digit, is_empty, lstrip, All, All-str, digits, str,
}
use crmsh.Units.Time.{is_letter, lower, span, to_int, convtab, unit, convert, crm_msec}

abbrev pub IsDigit : ℕ → Type 0
IsDigit c = is_digit c ≡ true

abbrev pub IsLetter : ℕ → Type 0
IsLetter c = is_letter c ≡ true

pub digit_space : (c : ℕ) → IsDigit c → is_space c ≡ false
unfolding is_digit is_space
digit_space c h = ground arith

letter_space : (c : ℕ) → IsLetter c → (is_space c ≡ false) × (is_digit c ≡ false)
unfolding is_digit is_space is_letter
letter_space c h = (ground arith, ground arith)

pub IsDigit-code : (d : ℕ) → d < 10 → IsDigit (b'0' + d)
unfolding is_digit
IsDigit-code d h = ground arith

to_int-digits : (f n : ℕ) (out : Text) → n < f → to_int 0 (digits f n out) ≡ to_int n out
unfolding to_int digits
to_int-digits zero n out h = absurd (omega arith)
to_int-digits (suc f) n out h = elim (Bool-cases (ltb n 10)) [
  | inl small ↦ rw small (ap (λ k. to_int k out) (omega arith))
  | inr big ↦
      rw big (to_int-digits f (n / 10) _ (ground arith) ∙ ap (λ k. to_int k out) (omega arith))
]

-- `int(str(n))` is `n`.
to_int-str : (n : ℕ) → to_int 0 (str n) ≡ n
unfolding str to_int
to_int-str n = to_int-digits (suc n) n [] (omega arith)

is_empty-digits : (f n : ℕ) (c : ℕ) (out : Text) → is_empty (digits f n (c ∷ out)) ≡ false
unfolding digits
is_empty-digits zero n c out = refl
is_empty-digits (suc f) n c out = elim (Bool-cases (ltb n 10)) [
  | inl small ↦ rw small
  | inr big ↦ rw big (is_empty-digits f (n / 10) _ (c ∷ out))
]

pub is_empty-str : (n : ℕ) → is_empty (str n) ≡ false
unfolding str digits
is_empty-str n = elim (Bool-cases (ltb n 10)) [
  | inl small ↦ rw small
  | inr big ↦ rw big (is_empty-digits n (n / 10) _ [])
]

lstrip-letters : (u : Text) → All IsLetter u → lstrip u ≡ u
unfolding lstrip
lstrip-letters [] a = refl
lstrip-letters (c ∷ u) a = rw (letter_space c a.0).0

lstrip-digits : (xs u : Text) → All IsDigit xs → All IsLetter u → lstrip (xs ++ u) ≡ xs ++ u
unfolding lstrip
lstrip-digits [] u d a = lstrip-letters u a
lstrip-digits (c ∷ xs) u d a = rw (digit_space c d.0)

span-letters : (u : Text) → All IsLetter u → span is_letter u ≡ (u, [])
unfolding span
span-letters [] a = refl
span-letters (c ∷ u) a = rw (a.0, span-letters u a.1)

span-digits : (xs u : Text) → All IsDigit xs → All IsLetter u → span is_digit (xs ++ u) ≡ (xs, u)
unfolding span
span-digits [] [] d a = refl
span-digits [] (c ∷ u) d a = rw (letter_space c a.0).1
span-digits (c ∷ xs) u d a = rw (d.0, span-digits xs u d.1 a)

-- A number followed by letters is read as that number times the factor of the unit that the letters
-- spell, in upper or lower case; it is an error where no unit is spelled so.
pub crm_msec-str :
    (n : ℕ) (u : Text) → All IsLetter u → crm_msec (str n ++ u) ≡ convert n (unit (lower u) convtab)
unfolding crm_msec
crm_msec-str n u a =
    let ds = All-str IsDigit n IsDigit-code in
    rw (
      lstrip-digits (str n) u ds a,
      span-digits (str n) u ds a,
      lstrip-letters u a,
      span-letters u a,
      is_empty-str n,
      to_int-str n,
    )
