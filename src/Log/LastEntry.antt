-- ===== src/Log/LastEntry.antt =====
-- An entry that is newer than the clock goes to the end of the log.
use lamdis.Prelude.{ℕ, zero, suc, ◌<◌, ◌≡◌, refl, ap, true, List, [], ◌∷◌, ◌++◌, arith}
use lamdis.Prelude.Lists.{All, All-of_In, In}
use lamdis.Log.TotalOrder.{IsSorted}
use lamdis.Log.Crypto.{Crypto}
use lamdis.Log.Entry.{Entry, less}
use lamdis.Log.Insertion.{IsFirst, search-IsFirst}
use lamdis.Log.Invariant.{IsChained}
use lamdis.Log.ThreadLog.{ThreadLog, not_below, insert_at, insert_entry}

insert_at-last :
    (r : ℕ) (e : Entry) (xs : List Entry)
    → IsFirst (not_below e xs) r
    → All (λ x. less x e ≡ true) xs
    → insert_at r e xs ≡ xs ++ e ∷ []
unfolding insert_at not_below
insert_at-last zero e [] f a = refl
insert_at-last (suc r) e [] f a = refl
insert_at-last zero e (x ∷ xs) f a = cc (f.above 0 (omega arith), a.0)
insert_at-last (suc r) e (x ∷ xs) f a =
    ap (λ ys. x ∷ ys)
      (insert_at-last r e xs
        (record {
          below = λ i h. f.below (suc i) (omega arith);
          above = λ i h. f.above (suc i) (omega arith);
        })
        a.1)

older : (x e : Entry) → x.lamport < e.lamport → less x e ≡ true
unfolding less
older x e h = ground (arith, h)

-- an entry that is newer than every entry
pub insert_entry-newest :
    (e : Entry) (xs : List Entry)
    → IsSorted xs
    → ((x : Entry) → In x xs → x.lamport < e.lamport)
    → insert_entry e xs ≡ xs ++ e ∷ []
unfolding insert_entry
insert_entry-newest e xs sorted new =
    insert_at-last _ e xs (search-IsFirst e xs sorted)
      (All-of_In (λ x. less x e ≡ true) xs (λ x i. older x e (new x i)))

pub insert_entry-last :
    (c : Crypto) (l : ThreadLog) (e : Entry)
    → IsChained c l
    → l.lamport < e.lamport
    → insert_entry e l.entries ≡ l.entries ++ e ∷ []
insert_entry-last c l e inv new =
    insert_entry-newest e l.entries inv.sorted (λ x i. omega (arith, inv.clock x i, new))
