-- ===== src/Prelude/SortLaws.antt =====
-- The insertion sort returns a permutation, in which no later element is below an earlier one.
use mathlib.Core.Path.{◌≡◌, sym, subst}
use mathlib.Core.Logic.{inl, inr}
use mathlib.Core.Bool.{Bool, true, false}
use mathlib.Core.List.{List, [], ◌∷◌, ◌++◌, Perm, perm_middle, append-nil}
use mathlib.Core.List.Perm
use lamdis.Prelude.Tests.{if_ind, Bool-cases}
use lamdis.Prelude.Lists.{All, All-of_In, All-In, In}
use lamdis.Prelude.Sort.{move_left, sort_onto, reverse_onto, insertion_sort}

module _ {ℓ} {A : Type ℓ} where
  reverse_onto-perm : (xs out : List A) → Perm (reverse_onto xs out) (xs ++ out)
  unfolding reverse_onto
  reverse_onto-perm [] out = Perm.refl out
  reverse_onto-perm (x ∷ xs) out = Perm.trans (reverse_onto-perm xs (x ∷ out)) (perm_middle xs out)

  -- No later element is below an earlier one.
  abbrev pub Ordered : (A → A → Bool) → List A → Type 0
  Ordered less [] = Unit
  Ordered less (x ∷ xs) = All (λ y. less y x ≡ false) xs × Ordered less xs

  -- The same of a list that is read from its right end.
  abbrev Falling : (A → A → Bool) → List A → Type 0
  Falling less [] = Unit
  Falling less (x ∷ xs) = All (λ y. less x y ≡ false) xs × Falling less xs

module _ {ℓ κ} {A : Type ℓ} (P : A → Type κ) where
  reverse_onto-All : (xs out : List A) → All P xs → All P out → All P (reverse_onto xs out)
  unfolding reverse_onto
  reverse_onto-All [] out h k = k
  reverse_onto-All (x ∷ xs) out h k = reverse_onto-All xs (x ∷ out) h.1 (h.0, k)

  module _ (less : A → A → Bool) where
    pub move_left-All : (x : A) (ys : List A) → P x → All P ys → All P (move_left less x ys)
    unfolding move_left
    move_left-All x [] h k = (h, tt)
    move_left-All x (y ∷ ys) h k =
        if_ind (All P) (less x y) (y ∷ move_left less x ys) (x ∷ y ∷ ys)
          (λ _. (k.0, move_left-All x ys h k.1)) (λ _. (h, k))

    sort_onto-All :
        (sorted rest : List A) → All P sorted → All P rest → All P (sort_onto less sorted rest)
    unfolding sort_onto
    sort_onto-All sorted [] h k = h
    sort_onto-All sorted (x ∷ rest) h k =
        sort_onto-All (move_left less x sorted) rest (move_left-All x sorted k.0 h) k.1

    -- What holds of every element holds of every element of the sorted list.
    pub insertion_sort-All : (xs : List A) → All P xs → All P (insertion_sort less xs)
    unfolding insertion_sort
    insertion_sort-All xs h =
        reverse_onto-All (sort_onto less [] xs) [] (sort_onto-All [] xs tt h) tt

module _ {ℓ} {A : Type ℓ} (less : A → A → Bool) where
  move_left-perm : (x : A) (ys : List A) → Perm (move_left less x ys) (x ∷ ys)
  unfolding move_left
  move_left-perm x [] = Perm.refl (x ∷ [])
  move_left-perm x (y ∷ ys) =
      if_ind (λ l. Perm l (x ∷ y ∷ ys)) (less x y) (y ∷ move_left less x ys) (x ∷ y ∷ ys)
        (λ _. Perm.trans (Perm.cons y (move_left-perm x ys)) (Perm.swap x y ys))
        (λ _. Perm.refl (x ∷ y ∷ ys))

  sort_onto-perm : (sorted rest : List A) → Perm (sort_onto less sorted rest) (sorted ++ rest)
  unfolding sort_onto
  sort_onto-perm sorted [] = subst (Perm sorted) (sym (append-nil sorted)) (Perm.refl sorted)
  sort_onto-perm sorted (x ∷ rest) = Perm.trans (sort_onto-perm (move_left less x sorted) rest) (
      Perm.trans (Perm.append_right rest (move_left-perm x sorted))
        (Perm.symm (perm_middle sorted rest)))

  pub insertion_sort-perm : (xs : List A) → Perm (insertion_sort less xs) xs
  unfolding insertion_sort
  insertion_sort-perm xs =
      Perm.trans (reverse_onto-perm (sort_onto less [] xs) [])
        (subst (λ l. Perm l xs) (sym (append-nil (sort_onto less [] xs))) (sort_onto-perm [] xs))

  module _ (asymm : (a b : A) → less a b ≡ true → less b a ≡ false)
      (neg_trans : (a b c : A) → less a b ≡ false → less b c ≡ false → less a c ≡ false) where
    below-All :
        (x y : A) (ys : List A)
        → less x y ≡ false
        → All (λ z. less y z ≡ false) ys
        → All (λ z. less x z ≡ false) ys
    below-All x y [] h k = tt
    below-All x y (z ∷ ys) h k = (neg_trans x y z h k.0, below-All x y ys h k.1)

    move_left-Falling : (x : A) (ys : List A) → Falling less ys → Falling less (move_left less x ys)
    unfolding move_left
    move_left-Falling x [] f = (tt, tt)
    move_left-Falling x (y ∷ ys) f =
        if_ind (Falling less) (less x y) (y ∷ move_left less x ys) (x ∷ y ∷ ys)
          (λ q. (
            move_left-All (λ z. less y z ≡ false) less x ys (asymm x y q) f.0,
            move_left-Falling x ys f.1,
          ))
          (λ q. ((q, below-All x y ys q f.0), f))

    sort_onto-Falling :
        (sorted rest : List A) → Falling less sorted → Falling less (sort_onto less sorted rest)
    unfolding sort_onto
    sort_onto-Falling sorted [] f = f
    sort_onto-Falling sorted (x ∷ rest) f =
        sort_onto-Falling (move_left less x sorted) rest (move_left-Falling x sorted f)

    reverse_onto-Ordered :
        (xs out : List A)
        → Falling less xs
        → Ordered less out
        → All (λ x. All (λ y. less y x ≡ false) out) xs
        → Ordered less (reverse_onto xs out)
    unfolding reverse_onto
    reverse_onto-Ordered [] out f o h = o
    reverse_onto-Ordered (x ∷ xs) out f o h =
        reverse_onto-Ordered xs (x ∷ out) f.1 (h.0, o) (both xs f.0 h.1)
      where
        both :
            (zs : List A)
            → All (λ y. less x y ≡ false) zs
            → All (λ z. All (λ y. less y z ≡ false) out) zs
            → All (λ z. All (λ y. less y z ≡ false) (x ∷ out)) zs
        both [] a b = tt
        both (z ∷ zs) a b = ((a.0, b.0), both zs a.1 b.1)

    pub insertion_sort-Ordered : (xs : List A) → Ordered less (insertion_sort less xs)
    unfolding insertion_sort
    insertion_sort-Ordered xs =
        reverse_onto-Ordered (sort_onto less [] xs) [] (sort_onto-Falling [] xs tt) tt
          (All-of_In _ _ (λ _ _. tt))

module _ {ℓ κ} {A : Type ℓ} (P : A → Type κ) (less : A → A → Bool) where
  of_reverse_onto : (xs out : List A) → All P (reverse_onto xs out) → All P xs × All P out
  unfolding reverse_onto
  of_reverse_onto [] out h = (tt, h)
  of_reverse_onto (x ∷ xs) out h =
      let (below, front) = of_reverse_onto xs (x ∷ out) h in ((front.0, below), front.1)

  of_move_left : (x : A) (ys : List A) → All P (move_left less x ys) → P x × All P ys
  unfolding move_left
  of_move_left x [] h = (h.0, tt)
  of_move_left x (y ∷ ys) h = elim (Bool-cases (less x y)) [
    | inl q ↦
        let k : All P (y ∷ move_left less x ys) = rw q at h in
        let (px, rest) = of_move_left x ys k.1 in (px, (k.0, rest))
    | inr q ↦ let k : All P (x ∷ y ∷ ys) = rw q at h in (k.0, k.1)
  ]

  of_sort_onto :
      (sorted rest : List A) → All P (sort_onto less sorted rest) → All P sorted × All P rest
  unfolding sort_onto
  of_sort_onto sorted [] h = (h, tt)
  of_sort_onto sorted (x ∷ rest) h =
      let (moved, more) = of_sort_onto (move_left less x sorted) rest h in
      let (px, old) = of_move_left x sorted moved in (old, (px, more))

  -- What holds of every element of the sorted list holds of every element.
  pub All-of_insertion_sort : (xs : List A) → All P (insertion_sort less xs) → All P xs
  unfolding insertion_sort
  All-of_insertion_sort xs h =
      (of_sort_onto [] xs (of_reverse_onto (sort_onto less [] xs) [] h).0).1

-- sorting keeps the members
module _ {ℓ} {A : Type ℓ} (less : A → A → Bool) where
  pub In-insertion_sort : (x : A) (xs : List A) → In x xs → In x (insertion_sort less xs)
  In-insertion_sort x xs i =
      All-In (λ y. In y (insertion_sort less xs)) x xs
        (All-of_insertion_sort (λ y. In y (insertion_sort less xs)) less xs
          (All-of_In (λ y. In y (insertion_sort less xs)) (insertion_sort less xs) (λ y j. j)))
        i

  pub of_insertion_sort : (x : A) (xs : List A) → In x (insertion_sort less xs) → In x xs
  of_insertion_sort x xs i =
      All-In (λ y. In y xs) x (insertion_sort less xs)
        (insertion_sort-All (λ y. In y xs) less xs (All-of_In (λ y. In y xs) xs (λ y j. j))) i
