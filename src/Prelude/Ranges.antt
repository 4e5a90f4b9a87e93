-- ===== src/Prelude/Ranges.antt =====
-- Facts about all numbers below a bound, by evaluation.
use lamdis.Prelude.{ℕ, zero, suc, ◌<◌, ◌≡◌, Bool, true, ◌&&◌, Option, none, some, arith, eqb, false}

unfoldable pub holds_below : ℕ → (ℕ → Bool) → Bool
holds_below zero test = true
holds_below (suc n) test = test n && holds_below n test

pub holds_below-lt :
    (bound : ℕ) (test : ℕ → Bool) (n : ℕ)
    → holds_below bound test ≡ true
    → n < bound
    → test n ≡ true
unfolding holds_below
holds_below-lt zero test n h l = absurd (omega arith)
holds_below-lt (suc b) test n h l = ground (arith, holds_below-lt b test n)

-- whether an option holds a number
abbrev pub gives : Option ℕ → ℕ → Bool
gives none n = false
gives (some m) n = eqb m n

pub gives-some : (o : Option ℕ) (n : ℕ) → gives o n ≡ true → o ≡ some n
gives-some none n h = cc
gives-some (some m) n h = ground arith
