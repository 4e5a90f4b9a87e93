-- ===== src/Prelude/Text.antt =====
-- Text: code points, equality and Go's byte order of strings. On UTF-8 the byte order is the order
-- of the code points, which is what the native comparison computes.
use Prim.Native.Nat.{ℕ, Ordering, compare as compare_ℕ}
use Prim.Native.Char.{code}
use Prim.Native.String.{String, then, compare}
use Prim.Native.String.compare
use mathlib.Core.Path.{◌≡◌, refl, sym, ap, ◌∙◌}
use mathlib.Core.Logic.{inl, inr}
use mathlib.Core.Bool.{Bool, true, false}
use mathlib.Core.List.{List, [], ◌∷◌, ◌++◌}
use Prim.Native.String.{◌++◌ as append}
use text.Mathlib.TextLemmas.{nil-append, cons-append}
use native.Mathlib.Omega.{arith}
use text.Mathlib.TextEquality.{path_by_compare}
use lamdis.Prelude.Tests.{Bool-cases}

abbrev pub codes : String → List ℕ
codes String.[] = []
codes (String.◌∷◌ c s) = code c ∷ codes s

abbrev is_lt : Ordering → Bool
is_lt Ordering.lt = true
is_lt _ = false

-- `s < t` on Go strings.
abbrev pub str_ltb : String → String → Bool
str_ltb s t = is_lt (compare s t)

abbrev flip : Ordering → Ordering
flip Ordering.lt = Ordering.gt
flip Ordering.eq = Ordering.eq
flip Ordering.gt = Ordering.lt

compare_flip_ℕ : (m n : ℕ) → compare_ℕ n m ≡ flip (compare_ℕ m n)
compare_flip_ℕ m n = ground arith

flip-then : (a b : Ordering) → flip (then a b) ≡ then (flip a) (flip b)
flip-then Ordering.lt b = refl
flip-then Ordering.eq b = refl
flip-then Ordering.gt b = refl

compare-flip : (s t : String) → compare t s ≡ flip (compare s t)
compare-flip String.[] String.[] = refl
compare-flip String.[] (String.◌∷◌ d t) = rw (compare.nil-cons d t, compare.cons-nil d t)
compare-flip (String.◌∷◌ c s) String.[] = rw (compare.nil-cons c s, compare.cons-nil c s)
compare-flip (String.◌∷◌ c s) (String.◌∷◌ d t) =
    rw
      (
        compare.cons-cons c d s t,
        compare.cons-cons d c t s,
        compare_flip_ℕ (code c) (code d),
        compare-flip s t,
      )
      (sym (flip-then (compare_ℕ (code c) (code d)) (compare s t)))

then_lt_trans :
    (a b c : ℕ) (p q r : Ordering)
    → (p ≡ Ordering.lt → q ≡ Ordering.lt → r ≡ Ordering.lt)
    → then (compare_ℕ a b) p ≡ Ordering.lt
    → then (compare_ℕ b c) q ≡ Ordering.lt
    → then (compare_ℕ a c) r ≡ Ordering.lt
then_lt_trans a b c p q r f h k = ground arith

compare_trans :
    (s t u : String)
    → compare s t ≡ Ordering.lt
    → compare t u ≡ Ordering.lt
    → compare s u ≡ Ordering.lt
compare_trans String.[] String.[] u h k = k
compare_trans String.[] (String.◌∷◌ d t) String.[] h k = cc (compare.cons-nil d t)
compare_trans String.[] (String.◌∷◌ d t) (String.◌∷◌ e u) h k = compare.nil-cons e u
compare_trans (String.◌∷◌ c s) String.[] u h k = cc (compare.cons-nil c s)
compare_trans (String.◌∷◌ c s) (String.◌∷◌ d t) String.[] h k = cc (compare.cons-nil d t)
compare_trans (String.◌∷◌ c s) (String.◌∷◌ d t) (String.◌∷◌ e u) h k =
    compare.cons-cons c e s u
    ∙ then_lt_trans (code c) (code d) (code e) (compare s t) (compare t u) (compare s u)
        (compare_trans s t u) (sym (compare.cons-cons c d s t) ∙ h)
        (sym (compare.cons-cons d e t u) ∙ k)

is_lt_inv : (o : Ordering) → is_lt o ≡ true → o ≡ Ordering.lt
is_lt_inv Ordering.lt h = refl
is_lt_inv Ordering.eq h = cc
is_lt_inv Ordering.gt h = cc

pub str_ltb_trans : (s t u : String) → str_ltb s t ≡ true → str_ltb t u ≡ true → str_ltb s u ≡ true
str_ltb_trans s t u h k = ap is_lt (compare_trans s t u (is_lt_inv _ h) (is_lt_inv _ k))

eq_of_flip : (o : Ordering) → is_lt o ≡ false → is_lt (flip o) ≡ false → o ≡ Ordering.eq
eq_of_flip Ordering.lt h k = cc
eq_of_flip Ordering.eq h k = refl
eq_of_flip Ordering.gt h k = cc

-- Two strings of which neither is below the other are equal.
pub str_ltb_total : (s t : String) → str_ltb s t ≡ false → str_ltb t s ≡ false → s ≡ t
str_ltb_total s t h k = path_by_compare s t (eq_of_flip _ h (ap is_lt (sym (compare-flip s t)) ∙ k))

not_both_flip : (o : Ordering) → is_lt o ≡ true → is_lt (flip o) ≡ false
not_both_flip Ordering.lt h = refl
not_both_flip Ordering.eq h = cc
not_both_flip Ordering.gt h = cc

pub str_ltb_asymm : (s t : String) → str_ltb s t ≡ true → str_ltb t s ≡ false
str_ltb_asymm s t h = ap is_lt (compare-flip s t) ∙ not_both_flip _ h

pub str_ltb_irrefl : (s : String) → str_ltb s s ≡ false
str_ltb_irrefl s = elim (Bool-cases (str_ltb s s)) [ inl h ↦ str_ltb_asymm s s h | inr h ↦ h ]

-- Not being below is transitive.
pub str_ltb_neg_trans :
    (s t u : String) → str_ltb s t ≡ false → str_ltb t u ≡ false → str_ltb s u ≡ false
str_ltb_neg_trans s t u h k = elim (Bool-cases (str_ltb s u)) [
  | inr low ↦ low
  | inl up ↦ elim (Bool-cases (str_ltb u t)) [
    | inl q ↦ cc (str_ltb_trans s u t up q)
    | inr q ↦ cc (str_ltb_total t u k q)
  ]
]

pub codes-append : (s t : String) → codes (append s t) ≡ codes s ++ codes t
codes-append String.[] t = ap codes (nil-append t)
codes-append (String.◌∷◌ c s) t =
    ap codes (cons-append c s t) ∙ ap (λ (cs : List ℕ). code c ∷ cs) (codes-append s t)
