-- ===== src/Prelude/Lists.antt =====
-- Lists over the native numbers, and predicates on their items.
use Prim.Native.Nat.{ℕ, suc, ◌+◌}
use mathlib.Core.Path.{◌≡◌, refl, sym, subst}
use mathlib.Core.Logic.{◌⊎◌, inl, inr}
use mathlib.Core.List.{List, [], ◌∷◌, ◌++◌}
use native.Mathlib.Omega.{arith}

module _ {ℓ} {A : Type ℓ} where
  abbrev pub length : List A → ℕ
  length [] = 0
  length (x ∷ xs) = suc (length xs)

  pub length-append : (xs ys : List A) → length (xs ++ ys) ≡ length xs + length ys
  length-append [] ys = omega arith
  length-append (x ∷ xs) ys = omega (arith, length-append xs ys)

abbrev pub All {ℓ κ} : {A : Type ℓ} → (A → Type κ) → List A → Type κ
All P [] = Unit
All P (x ∷ xs) = P x × All P xs

pub All-append {ℓ κ} :
    {A : Type ℓ} (P : A → Type κ) (xs ys : List A) → All P xs → All P ys → All P (xs ++ ys)
All-append P [] ys hx hy = hy
All-append P (x ∷ xs) ys hx hy = (hx.0, All-append P xs ys hx.1 hy)

-- Membership, and predicates that hold of all members.
abbrev pub In : {A : Type 0} → A → List A → Type 0
In x [] = ⊥
In x (y ∷ ys) = (x ≡ y) ⊎ In x ys

module _ {A : Type 0} (P : A → Type 0) where
  pub All-In : (xs : List A) → All P xs → (x : A) → In x xs → P x
  All-In [] h x h' = absurd h'
  All-In (y ∷ ys) h x (inl e) = subst P (sym e) h.0
  All-In (y ∷ ys) h x (inr t) = All-In ys h.1 x t

  pub In-All : (xs : List A) → ((x : A) → In x xs → P x) → All P xs
  In-All [] h = tt
  In-All (y ∷ ys) h = (h y (inl refl), In-All ys (λ x t. h x (inr t)))
