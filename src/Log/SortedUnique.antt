-- ===== src/Log/SortedUnique.antt =====
-- Two lists in the total order with the same members are the same list.
use lamdis.Prelude.{◌≡◌, refl, sym, ◌∙◌, subst, true, List, [], ◌∷◌}
use lamdis.Prelude.Lists.{All-In, In, here, there}
use lamdis.Log.Entry.{Entry, less}
use lamdis.Log.TotalOrder.{IsSorted, less_irrefl, less_asymm}

heads_lem :
    (x y : Entry) (xs ys : List Entry)
    → IsSorted (x ∷ xs)
    → IsSorted (y ∷ ys)
    → In x (y ∷ ys)
    → In y (x ∷ xs)
    → x ≡ y
heads_lem x y xs ys s t (here q) j = q
heads_lem x y xs ys s t (there i) (here q) = sym q
heads_lem x y xs ys s t (there i) (there j) =
    let above : less y x ≡ true = All-In (λ z. less y z ≡ true) x ys t.0 i in
    let below : less x y ≡ true = All-In (λ z. less x z ≡ true) y xs s.0 j in
    cc (below, less_asymm y x above)

tail_lem :
    (x y : Entry) (xs ys : List Entry)
    → x ≡ y
    → IsSorted (x ∷ xs)
    → ((z : Entry) → In z (x ∷ xs) → In z (y ∷ ys))
    → (z : Entry) → In z xs
    → In z ys
tail_lem x y xs ys q s f z i = elim (f z (there i)) [
  | here r ↦
      let above : less x z ≡ true = All-In (λ w. less x w ≡ true) z xs s.0 i in
      cc (subst (λ w. less x w ≡ true) (r ∙ sym q) above, less_irrefl x)
  | there j ↦ j
]

pub sorted_unique :
    (xs ys : List Entry)
    → IsSorted xs
    → IsSorted ys
    → ((z : Entry) → In z xs → In z ys)
    → ((z : Entry) → In z ys → In z xs)
    → xs ≡ ys
sorted_unique [] [] s t f g = refl
sorted_unique [] (y ∷ ys) s t f g = elim (g y (here refl)) [ ]
sorted_unique (x ∷ xs) [] s t f g = elim (f x (here refl)) [ ]
sorted_unique (x ∷ xs) (y ∷ ys) s t f g =
    let q : x ≡ y = heads_lem x y xs ys s t (f x (here refl)) (g y (here refl)) in
    let rest : xs ≡ ys =
      sorted_unique xs ys s.1 t.1 (tail_lem x y xs ys q s f) (tail_lem y x ys xs (sym q) t g) in
    cc (q, rest)
