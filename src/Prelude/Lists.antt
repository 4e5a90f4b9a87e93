-- ===== src/Prelude/Lists.antt =====
-- Lists by native lengths, membership by recursion, and predicates on all members.
use Prim.Native.Nat.{ℕ, suc, ◌+◌}
use mathlib.Core.Path.{◌≡◌, refl, sym, subst}
use mathlib.Core.Logic.{◌⊎◌, inl, inr}
use mathlib.Core.Bool.{Bool, true}
use mathlib.Core.List.{List, [], ◌∷◌, ◌++◌}
use native.Mathlib.Omega.{arith}
use lamdis.Prelude.Tests.{if◌then◌else◌, Bool-cases}

module _ {ℓ} {A : Type ℓ} where
  abbrev pub length : List A → ℕ
  length [] = 0
  length (x ∷ xs) = suc (length xs)

  -- `x` stands in the list, with its place.
  pub data In (x : A) : List A → Type ℓ where
    here : {y : A} {ys : List A} → x ≡ y → In x (y ∷ ys)
    there : {y : A} {ys : List A} → In x ys → In x (y ∷ ys)

  -- The members that pass a test, in order.
  unfoldable pub keep : (A → Bool) → List A → List A
  keep p [] = []
  keep p (x ∷ xs) = let rest = keep p xs in if p x then x ∷ rest else rest

  pub In-append_left : (x : A) (xs ys : List A) → In x xs → In x (xs ++ ys)
  In-append_left x [] ys i = elim i [ ]
  In-append_left x (y ∷ xs) ys (here e) = here e
  In-append_left x (y ∷ xs) ys (there i) = there (In-append_left x xs ys i)

  pub In-append_right : (x : A) (xs ys : List A) → In x ys → In x (xs ++ ys)
  In-append_right x [] ys i = i
  In-append_right x (y ∷ xs) ys i = there (In-append_right x xs ys i)

  pub In-append : (x : A) (xs ys : List A) → In x (xs ++ ys) → In x xs ⊎ In x ys
  In-append x [] ys i = inr i
  In-append x (y ∷ xs) ys (here e) = inl (here e)
  In-append x (y ∷ xs) ys (there i) = elim (In-append x xs ys i) [
    | inl l ↦ inl (there l)
    | inr r ↦ inr r
  ]

  keep_step :
      (p : A → Bool) (x y : A) (ys : List A)
      → In x (keep p (y ∷ ys))
      → ((x ≡ y) × (p y ≡ true)) ⊎ In x (keep p ys)
  unfolding keep
  keep_step p x y ys i = elim (Bool-cases (p y)) [
    | inl e ↦ head (rw e at i) e
    | inr e ↦ inr (rw e at i)
  ]
    where
      head : In x (y ∷ keep p ys) → p y ≡ true → ((x ≡ y) × (p y ≡ true)) ⊎ In x (keep p ys)
      head (here q) e = inl (q, e)
      head (there j) e = inr j

  -- What is kept was there, and passes the test.
  pub In-keep : (p : A → Bool) (x : A) (xs : List A) → In x (keep p xs) → In x xs × (p x ≡ true)
  unfolding keep
  In-keep p x [] i = elim i [ ]
  In-keep p x (y ∷ ys) i = elim (keep_step p x y ys i) [
    | inl (q, e) ↦ (here q, subst (λ z. p z ≡ true) (sym q) e)
    | inr j ↦ let (k, e) = In-keep p x ys j in (there k, e)
  ]

module _ {ℓ κ} {A : Type ℓ} where
  abbrev pub All : (A → Type κ) → List A → Type κ
  All P [] = Unit
  All P (x ∷ xs) = P x × All P xs

  pub All-In : (P : A → Type κ) (x : A) (xs : List A) → All P xs → In x xs → P x
  All-In P x [] h i = elim i [ ]
  All-In P x (y ∷ ys) h (here e) = subst P (sym e) h.0
  All-In P x (y ∷ ys) h (there i) = All-In P x ys h.1 i

  pub All-append : (P : A → Type κ) (xs ys : List A) → All P xs → All P ys → All P (xs ++ ys)
  All-append P [] ys h k = k
  All-append P (x ∷ xs) ys h k = (h.0, All-append P xs ys h.1 k)

  pub All-of_In : (P : A → Type κ) (xs : List A) → ((x : A) → In x xs → P x) → All P xs
  All-of_In P [] h = tt
  All-of_In P (x ∷ xs) h = (h x (here refl), All-of_In P xs (λ y i. h y (there i)))

pub length-append {ℓ} : {A : Type ℓ} (xs ys : List A) → length (xs ++ ys) ≡ length xs + length ys
length-append [] ys = omega arith
length-append (x ∷ xs) ys = omega (arith, length-append xs ys)
