-- ===== src/Log/After.antt =====
-- What After returns: entries of the chain behind the given place, in ascending order.
use lamdis.Prelude.{ℕ, ◌<◌, ◌≡◌, Bool, true, false, List, [], ◌∷◌, arith, if_ind, subst}
use lamdis.Prelude.Sort.{insertion_sort}
use lamdis.Prelude.Eq.{string_eq}
use lamdis.Prelude.Lists.{All, All-In, All-of_In, In, here, there, keep}
use lamdis.Prelude.SortLaws.{
  Ordered, All-of_insertion_sort, insertion_sort-All, insertion_sort-Ordered,
}
use lamdis.Log.ChainKey.{ChainKey}
use lamdis.Log.Entry.{Entry}
use lamdis.Log.ThreadLog.{ThreadLog, in_chain_after, seq_less, after}

pub record IsAfter (k : ChainKey) (since : ℕ) (e : Entry) : Type 0 where
  pub thread : e.thread ≡ k.thread
  pub author : e.author ≡ k.author
  pub lane : e.lane ≡ k.lane
  pub later : since < e.seq

in_chain_after-IsAfter :
    (k : ChainKey) (since : ℕ) (e : Entry) → in_chain_after k since e ≡ true → IsAfter k since e
unfolding in_chain_after
in_chain_after-IsAfter k since e h = record {
  thread = ground (arith, h, string_eq.beq_iff e.thread k.thread);
  author = ground (arith, h, string_eq.beq_iff e.author k.author);
  lane = ground (arith, h, string_eq.beq_iff e.lane k.lane);
  later = ground (arith, h);
}

keep-IsAfter :
    (k : ChainKey) (since : ℕ) (es : List Entry)
    → All (IsAfter k since) (keep (in_chain_after k since) es)
unfolding keep
keep-IsAfter k since [] = tt
keep-IsAfter k since (e ∷ es) =
    if_ind (All (IsAfter k since)) (in_chain_after k since e) _ _
      (λ h. (in_chain_after-IsAfter k since e h, keep-IsAfter k since es))
      (λ _. keep-IsAfter k since es)

seq_less_asymm : (a b : Entry) → seq_less a b ≡ true → seq_less b a ≡ false
seq_less_asymm a b h = ground arith

seq_less_neg_trans :
    (a b c : Entry) → seq_less a b ≡ false → seq_less b c ≡ false → seq_less a c ≡ false
seq_less_neg_trans a b c h k = ground arith

pub after-All : (l : ThreadLog) (k : ChainKey) (since : ℕ) → All (IsAfter k since) (after l k since)
unfolding after
after-All l k since =
    insertion_sort-All (IsAfter k since) seq_less (keep (in_chain_after k since) l.entries)
      (keep-IsAfter k since l.entries)

pub after-Ordered : (l : ThreadLog) (k : ChainKey) (since : ℕ) → Ordered seq_less (after l k since)
unfolding after
after-Ordered l k since =
    insertion_sort-Ordered seq_less seq_less_asymm seq_less_neg_trans
      (keep (in_chain_after k since) l.entries)

IsAfter-in_chain_after :
    (k : ChainKey) (since : ℕ) (e : Entry) → IsAfter k since e → in_chain_after k since e ≡ true
unfolding in_chain_after
IsAfter-in_chain_after k since e a = ground (
  arith,
  a.thread,
  a.author,
  a.lane,
  a.later,
  string_eq.beq_iff e.thread k.thread,
  string_eq.beq_iff e.author k.author,
  string_eq.beq_iff e.lane k.lane,
)

kept_in : (p : Entry → Bool) (e : Entry) (es : List Entry) → p e ≡ true → In e es → In e (keep p es)
unfolding keep
kept_in p e [] h i = elim i [ ]
kept_in p e (x ∷ xs) h (here q) = rw (subst (λ z. p z ≡ true) q h) (here q)
kept_in p e (x ∷ xs) h (there i) =
    if_ind (λ (l : List Entry). In e l) (p x) _ _ (λ _. there (kept_in p e xs h i))
      (λ _. kept_in p e xs h i)

-- After returns entries of the chain with higher numbers only, in ascending order, and each of those
-- that the log holds.
pub after-IsAfter :
    (l : ThreadLog) (k : ChainKey) (since : ℕ)
    → All (IsAfter k since) (after l k since)
      × Ordered seq_less (after l k since)
      × ((e : Entry) → In e l.entries → IsAfter k since e → In e (after l k since))
unfolding after
after-IsAfter l k since = (
  after-All l k since,
  after-Ordered l k since,
  λ e i a.
      All-In (λ x. In x (insertion_sort seq_less (keep (in_chain_after k since) l.entries))) e
        (keep (in_chain_after k since) l.entries)
        (All-of_insertion_sort
          (λ x. In x (insertion_sort seq_less (keep (in_chain_after k since) l.entries))) seq_less
          (keep (in_chain_after k since) l.entries)
          (All-of_In _ (insertion_sort seq_less (keep (in_chain_after k since) l.entries))
            (λ x j. j)))
        (kept_in (in_chain_after k since) e l.entries (IsAfter-in_chain_after k since e a) i),
)
