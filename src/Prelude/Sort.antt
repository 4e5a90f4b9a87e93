-- ===== src/Prelude/Sort.antt =====
-- The insertion sort that perm.PendingRequests and sync.orderForAppend write out: the i-th element
-- moves left by swaps while it is less than its neighbour.
use mathlib.Core.Bool.{Bool}
use mathlib.Core.List.{List, [], ◌∷◌}
use lamdis.Prelude.Tests.{if◌then◌else◌}

module _ {ℓ} {A : Type ℓ} where
  module _ (less : A → A → Bool) where
    -- the inner loop, on the sorted part read from its right end
    unfoldable pub move_left : A → List A → List A
    move_left x [] = x ∷ []
    move_left x (y ∷ ys) = let moved = y ∷ move_left x ys in if less x y then moved else x ∷ y ∷ ys

    -- the outer loop
    unfoldable pub sort_onto : List A → List A → List A
    unfolding move_left
    sort_onto sorted [] = sorted
    sort_onto sorted (x ∷ rest) = sort_onto (move_left x sorted) rest

  unfoldable pub reverse_onto : List A → List A → List A
  reverse_onto [] out = out
  reverse_onto (x ∷ xs) out = reverse_onto xs (x ∷ out)

  unfoldable pub insertion_sort : (A → A → Bool) → List A → List A
  unfolding sort_onto reverse_onto
  insertion_sort less xs = reverse_onto (sort_onto less [] xs) []
