-- ===== src/Prelude/Pairs.antt =====
-- Lists whose members are pairwise related, and that sorting keeps them so.
use mathlib.Core.Bool.{Bool}
use mathlib.Core.List.{List, [], ◌∷◌}
use lamdis.Prelude.Tests.{if_ind}
use lamdis.Prelude.Lists.{All}
use lamdis.Prelude.SortLaws.{move_left-All}
use lamdis.Prelude.Sort.{move_left, sort_onto, reverse_onto, insertion_sort}

module _ {ℓ κ} {A : Type ℓ} where
  abbrev pub AllPairs : (A → A → Type κ) → List A → Type κ
  AllPairs R [] = Unit
  AllPairs R (x ∷ xs) = All (R x) xs × AllPairs R xs

  -- every member of the one list is related to every member of the other
  abbrev Across : (A → A → Type κ) → List A → List A → Type κ
  Across R xs ys = All (λ x. All (R x) ys) xs

module _ {ℓ κ} {A : Type ℓ} (R : A → A → Type κ) (symm : (x y : A) → R x y → R y x)
    (less : A → A → Bool) where
  move_left-AllPairs :
      (x : A) (ys : List A) → All (R x) ys → AllPairs R ys → AllPairs R (move_left less x ys)
  unfolding move_left
  move_left-AllPairs x [] h k = (tt, tt)
  move_left-AllPairs x (y ∷ ys) h k =
      if_ind (AllPairs R) (less x y) (y ∷ move_left less x ys) (x ∷ y ∷ ys)
        (λ _. (move_left-All (R y) less x ys (symm x y h.0) k.0, move_left-AllPairs x ys h.1 k.1))
        (λ _. (h, k))

  -- a new member of the sorted part
  grow :
      (x : A) (rest sorted : List A)
      → All (R x) rest
      → Across R rest sorted
      → Across R rest (move_left less x sorted)
  grow x [] sorted h k = tt
  grow x (y ∷ rest) sorted h k =
      (move_left-All (R y) less x sorted (symm x y h.0) k.0, grow x rest sorted h.1 k.1)

  sort_onto-AllPairs :
      (sorted rest : List A)
      → AllPairs R sorted
      → AllPairs R rest
      → Across R rest sorted
      → AllPairs R (sort_onto less sorted rest)
  unfolding sort_onto
  sort_onto-AllPairs sorted [] a b k = a
  sort_onto-AllPairs sorted (x ∷ rest) a b k =
      sort_onto-AllPairs (move_left less x sorted) rest (move_left-AllPairs x sorted k.0 a) b.1
        (grow x rest sorted b.0 k.1)

  push : (x : A) (rest out : List A) → All (R x) rest → Across R rest out → Across R rest (x ∷ out)
  push x [] out h k = tt
  push x (y ∷ rest) out h k = ((symm x y h.0, k.0), push x rest out h.1 k.1)

  reverse_onto-AllPairs :
      (xs out : List A)
      → AllPairs R xs
      → AllPairs R out
      → Across R xs out
      → AllPairs R (reverse_onto xs out)
  unfolding reverse_onto
  reverse_onto-AllPairs [] out a b k = b
  reverse_onto-AllPairs (x ∷ xs) out a b k =
      reverse_onto-AllPairs xs (x ∷ out) a.1 (k.0, b) (push x xs out a.0 k.1)

  none_across : (xs : List A) → Across R xs []
  none_across [] = tt
  none_across (x ∷ xs) = (tt, none_across xs)

  pub insertion_sort-AllPairs : (xs : List A) → AllPairs R xs → AllPairs R (insertion_sort less xs)
  unfolding insertion_sort
  insertion_sort-AllPairs xs h =
      reverse_onto-AllPairs (sort_onto less [] xs) []
        (sort_onto-AllPairs [] xs tt h (none_across xs)) tt (none_across (sort_onto less [] xs))
