-- ===== src/Sync/Ordering.antt =====
-- orderForAppend: a permutation in an order that satisfies the rules of the chains.
use lamdis.Prelude.{
  ℕ, ◌≤◌, String, ◌≡◌, refl, sym, ap, Bool, true, false, not, List, [], ◌∷◌, ltb, arith,
  if◌then◌else◌, ◌≢◌,
}
use mathlib.Core.List.{Perm}
use lamdis.Prelude.Eq.{◌==◌, string_eq}
use lamdis.Prelude.Lists.{All}
use lamdis.Prelude.SortLaws.{Ordered, insertion_sort-perm, insertion_sort-Ordered}
use lamdis.Prelude.Text.{str_ltb, str_ltb_asymm, str_ltb_neg_trans, str_ltb_total}
use lamdis.Log.Entry.{Entry}
use lamdis.Sync.Order.{lane_rank, less_chain, less_append, order_for_append}

-- the order on (author, seq), the last two keys
abbrev by_author : String → ℕ → String → ℕ → Bool
by_author a m b n = if not (a == b) then str_ltb a b else ltb m n

by_author_asymm : (a b : String) (m n : ℕ) → by_author a m b n ≡ true → by_author b n a m ≡ false
by_author_asymm a b m n h =
    ground (arith, h, string_eq.beq_iff a b, string_eq.beq_iff b a, str_ltb_asymm a b)

by_author_neg_trans :
    (a b c : String) (m n k : ℕ)
    → by_author a m b n ≡ false
    → by_author b n c k ≡ false
    → by_author a m c k ≡ false
by_author_neg_trans a b c m n k h j = ground (
  arith,
  h,
  j,
  string_eq.beq_iff a b,
  string_eq.beq_iff b c,
  string_eq.beq_iff a c,
  str_ltb_neg_trans a b c,
  str_ltb_total a b,
  str_ltb_total b c,
  str_ltb_asymm a b,
  str_ltb_asymm a c,
  str_ltb_asymm b a,
  str_ltb_asymm b c,
)

-- the order with the rank of the lane in front
abbrev by_rank : ℕ → ℕ → Bool → Bool
by_rank r s later = if ltb r s then true else if ltb s r then false else later

by_rank_asymm :
    (r s : ℕ) (x y : Bool) → (x ≡ true → y ≡ false) → by_rank r s x ≡ true → by_rank s r y ≡ false
by_rank_asymm r s x y f h = ground (arith, h, f)

by_rank_neg_trans :
    (r s t : ℕ) (x y z : Bool)
    → (x ≡ false → y ≡ false → z ≡ false)
    → by_rank r s x ≡ false
    → by_rank s t y ≡ false
    → by_rank r t z ≡ false
by_rank_neg_trans r s t x y z f h k = ground (arith, h, k, f)

-- the order with the genesis entry in front
abbrev by_genesis : Bool → Bool → Bool → Bool
by_genesis a b later = if a then (if b then later else true) else if b then false else later

by_genesis_asymm :
    (a b x y : Bool) → (x ≡ true → y ≡ false) → by_genesis a b x ≡ true → by_genesis b a y ≡ false
by_genesis_asymm a b x y f h = ground (arith, h, f)

by_genesis_neg_trans :
    (a b c x y z : Bool)
    → (x ≡ false → y ≡ false → z ≡ false)
    → by_genesis a b x ≡ false
    → by_genesis b c y ≡ false
    → by_genesis a c z ≡ false
by_genesis_neg_trans a b c x y z f h k = ground (arith, h, k, f)

module _ (thread : String) where
  pub less_append_asymm :
      (a b : Entry) → less_append thread a b ≡ true → less_append thread b a ≡ false
  unfolding less_append
  less_append_asymm a b =
      by_genesis_asymm (a.id == thread) (b.id == thread) (less_chain a b) (less_chain b a) (
        by_rank_asymm (lane_rank a.lane) (lane_rank b.lane)
          (by_author a.author a.seq b.author b.seq) (by_author b.author b.seq a.author a.seq)
          (by_author_asymm a.author b.author a.seq b.seq))

  pub less_append_neg_trans :
      (a b c : Entry)
      → less_append thread a b ≡ false
      → less_append thread b c ≡ false
      → less_append thread a c ≡ false
  unfolding less_append
  less_append_neg_trans a b c =
      by_genesis_neg_trans (a.id == thread) (b.id == thread) (c.id == thread) (less_chain a b)
        (less_chain b c) (less_chain a c)
        (by_rank_neg_trans (lane_rank a.lane) (lane_rank b.lane) (lane_rank c.lane)
          (by_author a.author a.seq b.author b.seq) (by_author b.author b.seq c.author c.seq)
          (by_author a.author a.seq c.author c.seq)
          (by_author_neg_trans a.author b.author c.author a.seq b.seq c.seq))

-- Of two entries, the one may stand before the other in a batch: the genesis entry before all
-- others, control before other lanes, and within a chain in the order of sequence numbers.
pub record MayPrecede (thread : String) (a b : Entry) : Type 0 where
  pub genesis_first : b.id ≡ thread → a.id ≡ thread
  pub control_first : a.id ≢ thread → lane_rank b.lane ≡ 0 → lane_rank a.lane ≡ 0
  pub by_seq : a.id ≢ thread → a.lane ≡ b.lane → a.author ≡ b.author → a.seq ≤ b.seq

by_rank-false :
    (r s : ℕ) (later : Bool) → by_rank r s later ≡ false → (s ≤ r) × (r ≡ s → later ≡ false)
by_rank-false r s later h = (ground arith, λ q. ground arith)

by_genesis-false :
    (a b later : Bool)
    → by_genesis b a later ≡ false
    → (b ≡ true → a ≡ true) × (a ≡ false → later ≡ false)
by_genesis-false true true later h = (λ _. refl, λ q. cc)
by_genesis-false true false later h = (λ q. cc, λ q. cc)
by_genesis-false false true later h = (λ q. cc, λ q. cc)
by_genesis-false false false later h = (λ q. q, λ q. h)

module _ (thread : String) (a b : Entry) (h : less_append thread b a ≡ false) where
  parted :
      ((b.id == thread) ≡ true → (a.id == thread) ≡ true)
      × ((a.id == thread) ≡ false → less_chain b a ≡ false)
  unfolding less_append
  parted = by_genesis-false (a.id == thread) (b.id == thread) (less_chain b a) h

  ranked :
      a.id ≢ thread
      → (lane_rank a.lane ≤ lane_rank b.lane)
        × (lane_rank b.lane ≡ lane_rank a.lane → by_author b.author b.seq a.author a.seq ≡ false)
  ranked n =
      by_rank-false (lane_rank b.lane) (lane_rank a.lane) (by_author b.author b.seq a.author a.seq)
        (parted.1 (ground (arith, n, string_eq.beq_iff a.id thread)))

  not_less-MayPrecede : MayPrecede thread a b
  not_less-MayPrecede = record {
    genesis_first =
        λ q. (string_eq.beq_iff a.id thread).0 (parted.0 ((string_eq.beq_iff b.id thread).1 q));
    control_first = λ n r. omega (arith, (ranked n).0, r);
    by_seq = λ n l q.
        let late : by_author b.author b.seq a.author a.seq ≡ false =
          (ranked n).1 (ap lane_rank (sym l)) in
        ground (arith, late, q, string_eq.beq_iff b.author a.author);
  }

abbrev pub AllMayPrecede : String → List Entry → Type 0
AllMayPrecede thread [] = Unit
AllMayPrecede thread (x ∷ xs) = All (MayPrecede thread x) xs × AllMayPrecede thread xs

All-not_less :
    (thread : String) (x : Entry) (xs : List Entry)
    → All (λ y. less_append thread y x ≡ false) xs
    → All (MayPrecede thread x) xs
All-not_less thread x [] h = tt
All-not_less thread x (y ∷ ys) h =
    (not_less-MayPrecede thread x y h.0, All-not_less thread x ys h.1)

Ordered-AllMayPrecede :
    (thread : String) (xs : List Entry) → Ordered (less_append thread) xs → AllMayPrecede thread xs
Ordered-AllMayPrecede thread [] o = tt
Ordered-AllMayPrecede thread (x ∷ xs) o =
    (All-not_less thread x xs o.0, Ordered-AllMayPrecede thread xs o.1)

-- orderForAppend returns the entries that it is given, each as often, with the genesis entry first,
-- control entries before those of the summary and content lanes, and each author's entries of a lane
-- in the order of their sequence numbers.
pub order_for_append-IsOrdered :
    (entries : List Entry) (thread : String)
    → Perm (order_for_append entries thread) entries
      × AllMayPrecede thread (order_for_append entries thread)
unfolding order_for_append
order_for_append-IsOrdered entries thread = (
  insertion_sort-perm (less_append thread) entries,
  Ordered-AllMayPrecede thread _ (
      insertion_sort-Ordered (less_append thread) (less_append_asymm thread)
        (less_append_neg_trans thread) entries),
)
