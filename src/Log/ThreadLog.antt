-- ===== src/Log/ThreadLog.antt =====
-- log/log.go: one thread's entries, indexed by chain, and the one place where entries are appended.
use lamdis.Prelude.{
  ℕ, zero, suc, ◌+◌, ◌/◌, String, Bool, true, ◌&&◌, not, Option, none, some, List, [], ◌∷◌, ltb,
  eqb, add64, if◌then◌else◌,
}
use lamdis.Prelude.Eq.{◌==◌, string_eq}
use lamdis.Prelude.Lists.{length, keep}
use lamdis.Prelude.Map.{Map, empty, lookup, insert}
use lamdis.Prelude.Sort.{insertion_sort}
use lamdis.Result.{
  Result, ok, err, check, ◌>>=◌, ◌>>◌, foreign_thread, id_collision, first_seq, first_prev, seq_gap,
  prev_mismatch,
}
use lamdis.Log.ChainKey.{ChainKey, chain_key_eq, key_of}
use lamdis.Log.Crypto.{Crypto}
use lamdis.Log.Entry.{Entry, less, genesis_prev}
use lamdis.Log.Envelope.{validate, hash}

pub record ChainHead : Type 0 where
  pub seq : ℕ
  pub hash : String

pub record ThreadLog : Type 0 where
  pub thread : String
  pub heads : Map ChainKey ChainHead
  pub by_id : Map String Entry
  -- in (lamport, author, id) order
  pub entries : List Entry
  -- the highest lamport clock seen
  pub lamport : ℕ

-- NewThreadLog
unfoldable pub new_thread_log : String → ThreadLog
new_thread_log thread = record {
  thread = thread;
  heads = empty;
  by_id = empty;
  entries = [];
  lamport = 0;
}

-- Get
unfoldable pub get : ThreadLog → String → Option Entry
get l id = lookup id l.by_id

-- Heads: the version vector
unfoldable pub head_seqs : Map ChainKey ChainHead → Map ChainKey ℕ
head_seqs [] = []
head_seqs ((k, h) ∷ m) = (k, h.seq) ∷ head_seqs m

-- `l.heads[k].Seq`, 0 where the chain is unknown
unfoldable pub seq_at : Map ChainKey ChainHead → ChainKey → ℕ
unfolding lookup
seq_at heads k = elim (lookup k heads) [ none ↦ 0 | some h ↦ h.seq ]

-- Missing: the loop over the remote's chains
unfoldable pub missing_from : ThreadLog → Map ChainKey ℕ → Map ChainKey ℕ → Map ChainKey ℕ
unfolding insert
missing_from l [] need = need
missing_from l ((k, remote) ∷ rest) need =
    missing_from l rest
      (if ltb (seq_at l.heads k) remote then insert k (seq_at l.heads k) need else need)

unfoldable pub missing : ThreadLog → Map ChainKey ℕ → Map ChainKey ℕ
unfolding missing_from
missing l remote = missing_from l remote empty

abbrev pub seq_less : Entry → Entry → Bool
seq_less a b = ltb a.seq b.seq

unfoldable pub in_chain_after : ChainKey → ℕ → Entry → Bool
in_chain_after k since e =
    e.thread == k.thread && e.author == k.author && e.lane == k.lane && ltb since e.seq

-- After; sort.Slice by sequence number, which tells the entries of one chain apart
unfoldable pub after : ThreadLog → ChainKey → ℕ → List Entry
unfolding keep insertion_sort
after l k since = insertion_sort seq_less (keep (in_chain_after k since) l.entries)

-- sort.Search between `lo` and `hi`; each round halves what is left, so a fuel of the length is
-- enough.
unfoldable pub search_between : ℕ → ℕ → ℕ → (ℕ → Bool) → ℕ
search_between zero lo hi test = lo
search_between (suc fuel) lo hi test =
    let h = (lo + hi) / 2 in
    let below = search_between fuel lo h test in
    let above = search_between fuel (suc h) hi test in
    if ltb lo hi then (if test h then below else above) else lo

-- `!Less(l.entries[i], e)`; `sort.Search` asks below the length only
unfoldable pub not_below : Entry → List Entry → ℕ → Bool
not_below e [] i = true
not_below e (x ∷ xs) zero = not (less x e)
not_below e (x ∷ xs) (suc i) = not_below e xs i

-- the slice with `e` put in at place `i`
unfoldable pub insert_at : ℕ → Entry → List Entry → List Entry
insert_at zero e xs = e ∷ xs
insert_at (suc i) e [] = e ∷ []
insert_at (suc i) e (x ∷ xs) = x ∷ insert_at i e xs

unfoldable pub insert_entry : Entry → List Entry → List Entry
unfolding search_between insert_at
insert_entry e xs = insert_at (search_between (length xs) 0 (length xs) (not_below e xs)) e xs

-- the switch of Append on the chain's head
unfoldable pub check_chain : Option ChainHead → Entry → Result (Unit {0})
check_chain none e = do check (eqb e.seq 1) first_seq; check (e.prev == genesis_prev) first_prev
check_chain (some head) e = do
  check (eqb e.seq (add64 head.seq 1)) seq_gap
  check (e.prev == head.hash) prev_mismatch

-- what Append writes once an entry is admitted with its hash
unfoldable pub admit : ThreadLog → Entry → String → ThreadLog
admit l e h = record l {
  heads = insert (key_of e) (record { seq = e.seq; hash = h }) l.heads;
  by_id = insert e.id e l.by_id;
  entries = insert_entry e l.entries;
  lamport = if ltb l.lamport e.lamport then e.lamport else l.lamport;
}

module _ (c : Crypto) where
  -- `h, _ := e.Hash()`: "" for an error
  unfoldable pub hash_or_empty : Entry → String
  hash_or_empty e = elim (hash c e) [ ok h ↦ h | err _ ↦ "" ]

  -- Append, for an id that the log does not hold
  unfoldable pub append_new : ThreadLog → Entry → Result ThreadLog
  append_new l e = do check_chain (lookup (key_of e) l.heads) e; h ← hash c e; ok (admit l e h)

  -- Append, for an id that the log holds: the same entry again changes nothing
  unfoldable pub append_again : ThreadLog → Entry → Entry → Result ThreadLog
  append_again l e prior = if hash_or_empty prior == hash_or_empty e then ok l else err id_collision

  -- Append
  unfoldable pub append : ThreadLog → Entry → Result ThreadLog
  append l e = do
    check (e.thread == l.thread) foreign_thread
    validate c e
    elim (lookup e.id l.by_id) [ some prior ↦ append_again l e prior | none ↦ append_new l e ]
