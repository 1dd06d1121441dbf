-- ===== src/Prelude/Decimal.antt =====
-- `str(n)` and `'%d' % n` for a natural number.
use Prim.Native.Nat.{ℕ, zero, suc, ◌+◌, ◌/◌, ◌%◌, ◌<◌}
use native.Mathlib.Omega.{arith}
use mathlib.Core.Path.{◌≡◌, refl}
use mathlib.Core.List.{[], ◌∷◌}
use mathlib.Core.Logic.{inl, inr}
use crmsh.Prelude.Lists.{All}
use crmsh.Prelude.Tests.{ltb, if◌then◌else◌, Bool-cases}
use crmsh.Prelude.Chars.{Text, codes}

-- The decimal digits of `n` in front of `out`; a fuel above `n` is enough, as each round divides by ten.
unfoldable pub digits : ℕ → ℕ → Text → Text
digits zero n out = out
digits (suc f) n out =
    let more = digits f (n / 10) ((b'0' + n % 10) ∷ out) in
    if ltb n 10 then (b'0' + n) ∷ out else more

unfoldable pub str : ℕ → Text
unfolding digits
str n = digits (suc n) n []

str_example : str 1090 ≡ codes "1090"
unfolding str
str_example = refl

digits-All :
    (P : ℕ → Type 0) (f n : ℕ) (out : Text)
    → ((d : ℕ) → d < 10 → P (b'0' + d))
    → All P out
    → All P (digits f n out)
unfolding digits
digits-All P zero n out h a = a
digits-All P (suc f) n out h a = elim (Bool-cases (ltb n 10)) [
  | inl small ↦ rw small (h n (ground arith), a)
  | inr big ↦ rw big (digits-All P f (n / 10) _ h (h (n % 10) (omega arith), a))
]

-- The characters of a number are digits.
pub All-str : (P : ℕ → Type 0) (n : ℕ) → ((d : ℕ) → d < 10 → P (b'0' + d)) → All P (str n)
unfolding str
All-str P n h = digits-All P (suc n) n [] h tt
