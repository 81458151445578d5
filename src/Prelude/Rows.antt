-- ===== src/Prelude/Rows.antt =====
-- Equality of lists, entry by entry.
use mathlib.Core.Path.{◌≡◌, refl}
use mathlib.Core.Logic.{◌↔◌}
use mathlib.Core.Bool.{Bool, true, false, ◌&&◌}
use mathlib.Core.List.{List, [], ◌∷◌}
use native.Mathlib.Omega.{arith}
use unikvs.Prelude.Tests.{Equality, ◌==◌}

module _ {A : Type 0} ⦃e : Equality A⦄ where
  abbrev pub same_row : List A → List A → Bool
  same_row [] [] = true
  same_row [] (y ∷ ys) = false
  same_row (x ∷ xs) [] = false
  same_row (x ∷ xs) (y ∷ ys) = x == y && same_row xs ys

  pub same_row_iff : (a b : List A) → (same_row a b ≡ true) ↔ (a ≡ b)
  same_row_iff [] [] = (λ h. refl, λ h. refl)
  same_row_iff [] (y ∷ ys) = ground arith
  same_row_iff (x ∷ xs) [] = ground arith
  same_row_iff (x ∷ xs) (y ∷ ys) = ground (arith, same_row_iff xs ys, e.equal_iff x y)

  abbrev pub list_equality : Equality (List A)
  list_equality = record { equal = same_row; equal_iff = same_row_iff }
