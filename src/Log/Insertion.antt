-- ===== src/Log/Insertion.antt =====
-- sort.Search finds the place of an entry, and the insertion there keeps the entries sorted.
use lamdis.Prelude.{
  ℕ, zero, suc, ◌+◌, ◌/◌, ◌≤◌, ◌<◌, ◌≡◌, refl, ◌≢◌, ◌⊎◌, inl, inr, Bool, true, false, List, [], ◌∷◌,
  arith, Bool-cases, ltb,
}
use lamdis.Prelude.Lists.{All, In, here, there, length}
use lamdis.Log.Entry.{Entry, less}
use lamdis.Log.ThreadLog.{search_between, not_below, insert_at, insert_entry}
use lamdis.Log.TotalOrder.{IsSorted, less_trans, less_total}

-- `r` is the first place at which a test that stays true becomes true.
pub record IsFirst (test : ℕ → Bool) (r : ℕ) : Type 0 where
  pub below : (i : ℕ) → i < r → test i ≡ false
  pub above : (i : ℕ) → r ≤ i → test i ≡ true

-- The binary search finds it, on any range that holds it and any fuel that is as long.
pub search_between-IsFirst :
    (fuel lo hi : ℕ) (test : ℕ → Bool)
    → ((i j : ℕ) → i ≤ j → test i ≡ true → test j ≡ true)
    → lo ≤ hi
    → hi ≤ lo + fuel
    → ((i : ℕ) → i < lo → test i ≡ false)
    → ((i : ℕ) → hi ≤ i → test i ≡ true)
    → IsFirst test (search_between fuel lo hi test)
unfolding search_between
search_between-IsFirst zero lo hi test mono ord room low high = record {
  below = low;
  above = λ i h. high i (omega arith);
}
search_between-IsFirst (suc fuel) lo hi test mono ord room low high =
    elim (Bool-cases (ltb lo hi)) [
      | inr done ↦ rw done (record { below = low; above = λ i h. high i (ground (arith, done)) })
      | inl more ↦
          let mid : lo < hi = ground (arith, more) in
          elim (Bool-cases (test ((lo + hi) / 2))) [
            | inl t ↦
                rw (more, t)
                  (search_between-IsFirst fuel lo ((lo + hi) / 2) test mono (omega arith)
                    (omega arith) low (λ i h. mono ((lo + hi) / 2) i h t))
            | inr f ↦
                rw (more, f)
                  (search_between-IsFirst fuel (suc ((lo + hi) / 2)) hi test mono (omega arith)
                    (omega arith) (λ i h. not_yet test mono i ((lo + hi) / 2) (omega arith) f) high)
          ]
    ]
  where
    not_yet :
        (t : ℕ → Bool)
        → ((i j : ℕ) → i ≤ j → t i ≡ true → t j ≡ true)
        → (i h : ℕ) → i ≤ h
        → t h ≡ false
        → t i ≡ false
    not_yet t mono i h le f = elim (Bool-cases (t i)) [ inl q ↦ cc (mono i h le q) | inr q ↦ q ]

-- Behind an entry that is not below `e`, none is.
none_below :
    (e x : Entry) (xs : List Entry)
    → less x e ≡ false
    → All (λ y. less x y ≡ true) xs
    → (j : ℕ) → not_below e xs j ≡ true
unfolding not_below
none_below e x [] h a j = refl
none_below e x (y ∷ ys) h a zero = elim (Bool-cases (less y e)) [
  | inl q ↦ cc (less_trans x y e a.0 q)
  | inr q ↦ rw q
]
none_below e x (y ∷ ys) h a (suc j) = none_below e x ys h a.1 j

not_below_mono :
    (e : Entry) (xs : List Entry)
    → IsSorted xs
    → (i j : ℕ) → i ≤ j
    → not_below e xs i ≡ true
    → not_below e xs j ≡ true
unfolding not_below
not_below_mono e [] s i j le h = refl
not_below_mono e (x ∷ xs) s zero zero le h = h
not_below_mono e (x ∷ xs) s zero (suc j) le h = none_below e x xs (ground (arith, h)) s.0 j
not_below_mono e (x ∷ xs) s (suc i) zero le h = absurd (omega arith)
not_below_mono e (x ∷ xs) s (suc i) (suc j) le h = not_below_mono e xs s.1 i j (omega arith) h

past_end : (e : Entry) (xs : List Entry) (i : ℕ) → length xs ≤ i → not_below e xs i ≡ true
unfolding not_below
past_end e [] i h = refl
past_end e (x ∷ xs) zero h = absurd (omega arith)
past_end e (x ∷ xs) (suc i) h = past_end e xs i (omega arith)

-- On a sorted list, the binary search that Append makes over its whole length finds the first place
-- whose entry is not below the new one.
pub search-IsFirst :
    (e : Entry) (xs : List Entry)
    → IsSorted xs
    → IsFirst (not_below e xs) (search_between (length xs) 0 (length xs) (not_below e xs))
search-IsFirst e xs s =
    search_between-IsFirst (length xs) 0 (length xs) (not_below e xs) (not_below_mono e xs s)
      (omega arith) (omega arith) (λ i h. absurd (omega arith)) (past_end e xs)

-- no entry of the list has the id of `e`
abbrev pub IsFresh : Entry → List Entry → Type 0
IsFresh e = All (λ x. x.id ≢ e.id)

All-above :
    (e : Entry) (xs : List Entry)
    → ((i : ℕ) → not_below e xs i ≡ true)
    → IsFresh e xs
    → All (λ y. less e y ≡ true) xs
unfolding not_below
All-above e [] h f = tt
All-above e (x ∷ xs) h f =
    (less_total x e f.0 (ground (arith, h 0)), All-above e xs (λ i. h (suc i)) f.1)

insert_at-All :
    (P : Entry → Type 0) (r : ℕ) (e : Entry) (xs : List Entry)
    → P e
    → All P xs
    → All P (insert_at r e xs)
unfolding insert_at
insert_at-All P zero e xs p a = (p, a)
insert_at-All P (suc r) e [] p a = (p, tt)
insert_at-All P (suc r) e (x ∷ xs) p a = (a.0, insert_at-All P r e xs p a.1)

insert_at-IsSorted :
    (r : ℕ) (e : Entry) (xs : List Entry)
    → IsFirst (not_below e xs) r
    → IsSorted xs
    → IsFresh e xs
    → IsSorted (insert_at r e xs)
unfolding insert_at not_below
insert_at-IsSorted zero e xs f s n = (All-above e xs (λ i. f.above i (omega arith)) n, s)
insert_at-IsSorted (suc r) e [] f s n = (tt, tt)
insert_at-IsSorted (suc r) e (x ∷ xs) f s n = (
  insert_at-All (λ y. less x y ≡ true) r e xs (ground (arith, f.below 0 (omega arith))) s.0,
  insert_at-IsSorted r e xs
      (record {
        below = λ i h. f.below (suc i) (omega arith);
        above = λ i h. f.above (suc i) (omega arith);
      })
      s.1 n.1,
)

-- The insertion that Append makes keeps a sorted log sorted.
pub insert_entry-IsSorted :
    (e : Entry) (xs : List Entry) → IsSorted xs → IsFresh e xs → IsSorted (insert_entry e xs)
unfolding insert_entry
insert_entry-IsSorted e xs s n = insert_at-IsSorted _ e xs (search-IsFirst e xs s) s n

of_insert_at :
    (x : Entry) (r : ℕ) (e : Entry) (xs : List Entry) → In x (insert_at r e xs) → (x ≡ e) ⊎ In x xs
unfolding insert_at
of_insert_at x zero e xs (here q) = inl q
of_insert_at x zero e xs (there i) = inr i
of_insert_at x (suc r) e [] (here q) = inl q
of_insert_at x (suc r) e [] (there i) = elim i [ ]
of_insert_at x (suc r) e (y ∷ ys) (here q) = inr (here q)
of_insert_at x (suc r) e (y ∷ ys) (there i) = elim (of_insert_at x r e ys i) [
  | inl q ↦ inl q
  | inr j ↦ inr (there j)
]

In-insert_at : (r : ℕ) (e : Entry) (xs : List Entry) → In e (insert_at r e xs)
unfolding insert_at
In-insert_at zero e xs = here refl
In-insert_at (suc r) e [] = here refl
In-insert_at (suc r) e (x ∷ xs) = there (In-insert_at r e xs)

In-insert_at_old :
    (x : Entry) (r : ℕ) (e : Entry) (xs : List Entry) → In x xs → In x (insert_at r e xs)
unfolding insert_at
In-insert_at_old x zero e xs i = there i
In-insert_at_old x (suc r) e (y ∷ ys) (here q) = here q
In-insert_at_old x (suc r) e (y ∷ ys) (there i) = there (In-insert_at_old x r e ys i)
In-insert_at_old x (suc r) e [] i = elim i [ ]

-- The entries after an insertion are the old ones and the new one.
pub of_insert_entry : (x e : Entry) (xs : List Entry) → In x (insert_entry e xs) → (x ≡ e) ⊎ In x xs
unfolding insert_entry
of_insert_entry x e xs = of_insert_at x _ e xs

pub In-insert_entry : (e : Entry) (xs : List Entry) → In e (insert_entry e xs)
unfolding insert_entry
In-insert_entry e xs = In-insert_at _ e xs

pub In-insert_entry_old : (x e : Entry) (xs : List Entry) → In x xs → In x (insert_entry e xs)
unfolding insert_entry
In-insert_entry_old x e xs = In-insert_at_old x _ e xs
