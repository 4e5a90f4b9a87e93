-- ===== src/Store/Sqlite.antt =====
-- store/sqlite.go: the entries table and the cache of thread logs. The SQL engine is modelled by what
-- the statements mean on the table's rows. Its writes may fail, its reads do not; a row holds its
-- entry, so that the raw column is taken to decode to the entry that was encoded.
use lamdis.Prelude.{
  ℕ, suc, String, Bool, false, ◌&&◌, ◌||◌, not, none, some, List, [], ◌∷◌, ◌++◌, ltb, leb, eqb,
  i64_mod, if◌then◌else◌,
}
use lamdis.Prelude.Eq.{◌==◌, string_eq}
use lamdis.Prelude.Lists.{length, keep}
use lamdis.Prelude.Map.{Map, empty, lookup, insert}
use lamdis.Prelude.Sort.{insertion_sort}
use lamdis.Prelude.Text.{str_ltb}
use lamdis.Result.{
  Result, ok, err, corrupt_store, unique_violation, not_stored, thread_not_found, no_lanes,
}
use lamdis.Exec.{Exec, pure, fail, lift, ◌>>=◌, ◌>>◌}
use lamdis.Log.Crypto.{Crypto}
use lamdis.Log.Entry.{Entry, Lane, less}
use lamdis.Log.Envelope.{hash}
use lamdis.Log.ThreadLog.{ThreadLog, new_thread_log, append}
use lamdis.Store.{Store}

pub record Row : Type 0 where
  pub rid : ℕ
  pub entry : Entry

pub record CachedLog : Type 0 where
  pub log : ThreadLog
  pub max_rid : ℕ

pub record Sqlite : Type 0 where
  -- in the order of their rids
  pub rows : List Row
  pub logs : Map String CachedLog
  -- whether the database fails, for a reason of its own, to write an entry behind the rows
  pub write_fails : List Row → Entry → Bool

abbrev pub new_sqlite : Sqlite
new_sqlite = record { rows = []; logs = empty; write_fails = λ rows e. false }

-- `SELECT max(rid) FROM entries WHERE thread = ?`, 0 for NULL
unfoldable pub max_rid : String → List Row → ℕ
max_rid thread [] = 0
max_rid thread (r ∷ rows) =
    let rest = max_rid thread rows in
    if r.entry.thread == thread && ltb rest r.rid then r.rid else rest

-- the rid that SQLite gives the next row
unfoldable pub next_rid : List Row → ℕ
next_rid [] = 1
next_rid (r ∷ rows) = let rest = next_rid rows in if ltb r.rid rest then rest else suc r.rid

unfoldable pub entries_of : String → List Row → List Entry
entries_of thread [] = []
entries_of thread (r ∷ rows) =
    let rest = entries_of thread rows in if r.entry.thread == thread then r.entry ∷ rest else rest

-- `ORDER BY author, lane, seq`
abbrev pub chain_less : Entry → Entry → Bool
chain_less a b =
    if not (a.author == b.author)
    then str_ltb a.author b.author
    else if not (a.lane == b.lane)
    then str_ltb a.lane b.lane
    else ltb a.seq b.seq

-- whether an id, or a place in a chain, is taken
unfoldable pub id_stored : String → List Row → Bool
id_stored id [] = false
id_stored id (r ∷ rows) = r.entry.id == id || id_stored id rows

unfoldable pub place_stored : Entry → List Row → Bool
place_stored e [] = false
place_stored e (r ∷ rows) =
    (r.entry.thread == e.thread
      && r.entry.author == e.author
      && r.entry.lane == e.lane
      && eqb r.entry.seq e.seq)
    || place_stored e rows

unfoldable pub put_log : String → ThreadLog → ℕ → Sqlite → Sqlite
unfolding insert
put_log thread log rid s = record s {
  logs = insert thread (record { log = log; max_rid = rid }) s.logs;
}

-- The transaction does not take the entry: database/sql refuses an unsigned number with the high bit
-- set, or an INSERT or the commit fails in the database.
unfoldable pub refuses : Sqlite → Entry → Bool
refuses s e = leb i64_mod e.seq || leb i64_mod e.lamport || s.write_fails s.rows e

module _ (c : Crypto) where
  -- the loop that rebuilds a log from its rows
  unfoldable pub load_from : ThreadLog → List Entry → Result ThreadLog
  load_from l [] = ok l
  load_from l (e ∷ es) = elim (append c l e) [ err _ ↦ err corrupt_store | ok l' ↦ load_from l' es ]

  unfoldable pub rehydrate : String → Exec Sqlite ThreadLog
  unfolding load_from insertion_sort entries_of put_log
  rehydrate thread s =
      elim (load_from (new_thread_log thread)
        (insertion_sort chain_less (entries_of thread s.rows))) [
          | err e ↦ (err e, s)
          | ok l ↦ (ok l, put_log thread l (max_rid thread s.rows) s)
        ]

  -- threadLog
  unfoldable pub thread_log : String → Exec Sqlite ThreadLog
  unfolding rehydrate lookup max_rid
  thread_log thread s = elim (lookup thread s.logs) [
    | none ↦ rehydrate thread s
    | some cached ↦
        if eqb cached.max_rid (max_rid thread s.rows)
        then (ok cached.log, s)
        else rehydrate thread s
  ]

  -- The cached log of the thread is the one that was appended to.
  unfoldable pub update_log : String → ThreadLog → Sqlite → Sqlite
  unfolding insert lookup
  update_log thread log s = elim (lookup thread s.logs) [
    | none ↦ s
    | some cached ↦ record s { logs = insert thread (record cached { log = log }) s.logs }
  ]

  -- `if c, ok := s.logs[e.Thread]; ok && rid > c.maxRid`
  unfoldable pub note_rid : String → ℕ → Sqlite → Sqlite
  unfolding insert lookup
  note_rid thread rid s = elim (lookup thread s.logs) [
    | none ↦ s
    | some cached ↦
        if ltb cached.max_rid rid
        then record s { logs = insert thread (record cached { max_rid = rid }) s.logs }
        else s
  ]

  -- the INSERT, with the table's two uniqueness constraints; a transaction that fails is rolled back
  unfoldable pub insert_row : Entry → Exec Sqlite (Unit {0})
  unfolding next_rid note_rid place_stored id_stored refuses
  insert_row e s =
      if refuses s e
      then (err not_stored, s)
      else if id_stored e.id s.rows || place_stored e s.rows
      then (err unique_violation, s)
      else (
        ok tt,
        note_rid e.thread (next_rid s.rows)
            (record s { rows = s.rows ++ record { rid = next_rid s.rows; entry = e } ∷ [] }),
      )

  -- persistence is decided by the table, not by the cache
  unfoldable pub persist : Entry → Exec Sqlite (Unit {0})
  unfolding insert_row
  persist e s =
      if id_stored e.id s.rows
      then (ok tt, s)
      else elim (hash c e) [ err x ↦ (err x, s) | ok _ ↦ insert_row e s ]

  -- one round of AppendEntries
  unfoldable pub append_entry : Entry → Exec Sqlite (Unit {0})
  unfolding thread_log persist
  append_entry e = do
    l ← thread_log e.thread
    l' ← lift (append c l e)
    (λ s. (ok tt, update_log e.thread l' s))
    persist e

  -- AppendEntries
  unfoldable pub append_entries : List Entry → Exec Sqlite (Unit {0})
  unfolding append_entry
  append_entries [] = pure tt
  append_entries (e ∷ es) = do append_entry e; append_entries es

  -- Thread
  unfoldable pub thread : String → Exec Sqlite ThreadLog
  unfolding thread_log
  thread id = do
    l ← thread_log id
    if eqb (length l.entries) 0 then fail thread_not_found else pure l

-- `SELECT DISTINCT thread FROM entries ORDER BY thread`
unfoldable pub thread_ids : List Row → List String
thread_ids [] = []
thread_ids (r ∷ rows) = r.entry.thread ∷ thread_ids rows

unfoldable pub drop_repeats : List String → List String
drop_repeats [] = []
drop_repeats (t ∷ ts) =
    let rest = drop_repeats ts in
    elim rest [ [] ↦ t ∷ [] | u ∷ us ↦ if t == u then u ∷ us else t ∷ u ∷ us ]

-- Threads
unfoldable pub threads : Exec Sqlite (List String)
unfolding thread_ids drop_repeats insertion_sort
threads s = (ok (drop_repeats (insertion_sort str_ltb (thread_ids s.rows))), s)

unfoldable pub in_lanes : List Lane → Entry → Bool
in_lanes [] e = false
in_lanes (l ∷ ls) e = e.lane == l || in_lanes ls e

-- Entries: `thread = ? AND lane IN (…) ORDER BY lamport, author, id`
unfoldable pub entries : String → List Lane → Exec Sqlite (List Entry)
unfolding in_lanes keep entries_of insertion_sort
entries id lanes s =
    if eqb (length lanes) 0
    then (err no_lanes, s)
    else (ok (insertion_sort less (keep (in_lanes lanes) (entries_of id s.rows))), s)

-- the driver as a store
abbrev pub sqlite_store : Crypto → Store Sqlite
sqlite_store c = record { append_entries = append_entries c; thread = thread c; threads = threads }
