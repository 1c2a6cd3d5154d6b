-- ===== src/Common/Sort.antt =====
-- Sorting by a comparison, and the removal of equal neighbours.
pub mod Laws
use Prim.Native.Nat.{ℕ, Ordering}
use mathlib.Core.Path.{◌≡◌, refl}
use mathlib.Core.Bool.{Bool, true, false}
use mathlib.Core.List.{List, [], ◌∷◌, ◌++◌}
use routevane.Common.Tests.{if◌then◌else◌}
use routevane.Common.Order.{is_le}

module _ {ℓ} {A : Type ℓ} (cmp : A → A → Ordering) where
  -- The sorted list does not depend on the algorithm where the comparison separates unequal items.
  unfoldable pub insert_sorted : A → List A → List A
  insert_sorted a [] = a ∷ []
  insert_sorted a (x ∷ xs) = if is_le (cmp a x) then a ∷ x ∷ xs else x ∷ insert_sorted a xs

  unfoldable pub sort_by : List A → List A
  unfolding insert_sorted
  sort_by [] = []
  sort_by (x ∷ xs) = insert_sorted x (sort_by xs)

-- `slices.Compact`: the first of each run of equal items.
module _ {ℓ} {A : Type ℓ} (same : A → A → Bool) where
  unfoldable pub compact_by : List A → List A
  compact_by [] = []
  compact_by (x ∷ []) = x ∷ []
  compact_by (x ∷ y ∷ ys) = let rest = compact_by (y ∷ ys) in if same x y then rest else x ∷ rest
