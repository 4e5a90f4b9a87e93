-- ===== src/Store/Restarted.antt =====
-- What a thread answers after a restart of the node.
use lamdis.Prelude.{
  ◌⊎◌, Bool-cases, ◌<◌, String, ◌≡◌, refl, sym, ap, ◌∙◌, subst, inl, inr, true, List, [], ◌∷◌, eqb,
  u64_mod, if◌then◌else◌, arith,
}
use lamdis.Prelude.Lists.{In, All, length}
use lamdis.Result.{ok, err, Result, thread_not_found, ok-injective}
use lamdis.Exec.{◌>>=◌, pure, fail}
use lamdis.Log.Crypto.{Crypto}
use lamdis.Log.Entry.{Entry}
use lamdis.Log.SortedUnique.{sorted_unique}
use lamdis.Log.ThreadLog.{ThreadLog, append, hash_or_empty}
use lamdis.Store.Sqlite.{
  Row, Sqlite, append_entry, append_entries, thread, thread_log, entries_of, persist, put_log,
  max_rid, id_stored,
}
use lamdis.Store.Rows.{id_stored-of_In}
use lamdis.Store.Coherent.{
  IsOpened, IsLogOf, IsCoherent, restart, restart-IsCoherent, thread_log-IsOpened,
}
use lamdis.Store.Durable.{IsStored, taken}
use lamdis.Store.Batches.{OwnIds, append_entries-IsBatch, IsCoherent-after}

-- the entries of a log that Thread returns
unfoldable pub reply_of : ThreadLog → Result (List Entry)
reply_of l = if eqb (length l.entries) 0 then err thread_not_found else ok l.entries

unfoldable pub entries_reply : Result ThreadLog → Result (List Entry)
entries_reply (ok l) = ok l.entries
entries_reply (err x) = err x

pub thread-entries_reply :
    (c : Crypto) (s s1 : Sqlite) (t : String) (l : ThreadLog)
    → thread_log c t s ≡ (ok l, s1)
    → entries_reply (thread c t s).0 ≡ reply_of l
unfolding thread entries_reply reply_of
thread-entries_reply c s s1 t l h =
    rw (thread, ◌>>=◌, h)
      (elim (Bool-cases (eqb (length l.entries) 0)) [
        | inl q ↦ rw (q, fail) refl
        | inr q ↦ rw (q, pure) refl
      ])

-- Thread answers with the opened log, or finds it empty, and leaves the opened state.
pub thread-cases :
    (c : Crypto) (s s1 : Sqlite) (t : String) (m : ThreadLog)
    → IsOpened c s t m s1
    → (thread c t s ≡ (ok m, s1)) ⊎ (thread c t s ≡ (err thread_not_found, s1))
unfolding thread
thread-cases c s s1 t m o = elim (Bool-cases (eqb (length m.entries) 0)) [
  | inr q ↦ inl (rw (thread, ◌>>=◌, o.returned, q, pure) refl)
  | inl q ↦ inr (rw (thread, ◌>>=◌, o.returned, q, fail) refl)
]

-- Two logs of the same rows have the same entries in the same order.
pub IsLogOf-unique :
    (c : Crypto) (rows : List Row) (t : String) (l m : ThreadLog)
    → IsLogOf c rows t l
    → IsLogOf c rows t m
    → l.entries ≡ m.entries
IsLogOf-unique c rows t l m a b =
    sorted_unique l.entries m.entries a.chained.sorted b.chained.sorted
      (λ z i. b.into z (a.from z i)) (λ z i. a.into z (b.from z i))

-- If every cached log is the log of its thread's rows, Thread gives the same entries in the same
-- order, or the same error, as it gives after a restart, when the log is built anew from the rows.
pub thread-restart :
    (c : Crypto) (s : Sqlite) (t : String)
    → IsCoherent c s
    → entries_reply (thread c t (restart s)).0 ≡ entries_reply (thread c t s).0
unfolding restart reply_of
thread-restart c s t inv =
    let (l, s1, o) = thread_log-IsOpened c s t inv in
    let (m, s2, p) = thread_log-IsOpened c (restart s) t (restart-IsCoherent c s inv) in
    let log : IsLogOf c s.rows t l = subst (λ rows. IsLogOf c rows t l) o.rows o.log in
    let again : IsLogOf c s.rows t m = subst (λ rows. IsLogOf c rows t m) p.rows p.log in
    thread-entries_reply c (restart s) s2 t m p.returned
    ∙ ap (λ (es : List Entry). if eqb (length es) 0 then err thread_not_found else ok es)
        (IsLogOf-unique c s.rows t m l again log)
    ∙ sym (thread-entries_reply c s s1 t l o.returned)

-- The thread answers with entries among which one has the id and the hash of `e`.
pub record IsServed (c : Crypto) (e : Entry) (r : Result (List Entry)) : Type 0 where
  pub entries : List Entry
  pub answered : r ≡ ok entries
  pub entry : Entry
  pub held : In entry entries
  pub name : entry.id ≡ e.id
  pub digest : hash_or_empty c entry ≡ hash_or_empty c e

pub reply_of_held :
    (l : ThreadLog) (es : List Entry) (e : Entry) → l.entries ≡ es → In e es → reply_of l ≡ ok es
unfolding reply_of
reply_of_held l [] e q i = elim i [ ]
reply_of_held l (x ∷ es) e q i = rw q (ground arith)

pub IsStored-IsServed :
    (c : Crypto) (s : Sqlite) (e : Entry)
    → IsCoherent c s
    → IsStored c s e
    → IsServed c e (entries_reply (thread c e.thread (restart s)).0)
unfolding restart
IsStored-IsServed c s e inv st =
    let (l, s1, o) = thread_log-IsOpened c (restart s) e.thread (restart-IsCoherent c s inv) in
    let held : In st.entry l.entries =
      o.log.into st.entry
        (subst (λ rows. In st.entry (entries_of e.thread rows)) (sym o.rows) st.held) in
    record {
      entries = l.entries;
      answered =
          thread-entries_reply c (restart s) s1 e.thread l o.returned
          ∙ reply_of_held l l.entries st.entry refl held;
      entry = st.entry;
      held = held;
      name = st.name;
      digest = st.digest;
    }

-- If every cached log is the log of its thread's rows and AppendEntries returns without an error on
-- entries with numbers below 2^64 whose ids are of one thread, then after a restart Thread answers,
-- for each entry of the batch, with entries of which one has its id and its hash.
pub append_entries-IsServed :
    (c : Crypto) (es : List Entry) (s : Sqlite)
    → IsCoherent c s
    → All (λ e. e.seq < u64_mod) es
    → OwnIds es s.rows
    → (append_entries c es s).0 ≡ ok tt
    → (e : Entry) → In e es
    → IsServed c e (entries_reply (thread c e.thread (restart (append_entries c es s).1)).0)
append_entries-IsServed c es s inv small own h e i =
    let batch = append_entries-IsBatch c es s inv small own in
    IsStored-IsServed c (append_entries c es s).1 e (IsCoherent-after batch.coherent h)
      (batch.stored h e i)

-- If every cached log is the log of its thread's rows, an id is in some row, and the log of an
-- entry's thread takes the entry with that id, then AppendEntries reports success and adds no row,
-- whatever thread the row with the id is of.
pub append_entry-stored_id :
    (c : Crypto) (s : Sqlite) (e : Entry) (r : Row) (l l' : ThreadLog)
    → IsCoherent c s
    → In r s.rows
    → r.entry.id ≡ e.id
    → (thread_log c e.thread s).0 ≡ ok l
    → append c l e ≡ ok l'
    → ((append_entry c e s).0 ≡ ok tt) × ((append_entry c e s).1.rows ≡ s.rows)
unfolding append_entry persist put_log
append_entry-stored_id c s e r l l' inv i q opened h =
    let (m, s1, o) = thread_log-IsOpened c s e.thread inv in
    let same : l ≡ m =
      ok-injective (sym opened ∙ ap (λ (x : Result ThreadLog × Sqlite). x.0) o.returned) in
    let run : append_entry c e s ≡ persist c e (put_log e.thread l' (max_rid e.thread s1.rows) s1) =
      taken c s e m s1 o l' (subst (λ (x : ThreadLog). append c x e ≡ ok l') same h) in
    let found : id_stored e.id s1.rows ≡ true =
      id_stored-of_In e.id r s1.rows (subst (In r) (sym o.rows) i) q in
    let done : append_entry c e s ≡ (ok tt, put_log e.thread l' (max_rid e.thread s1.rows) s1) =
      run ∙ rw (persist, found) refl in
    (
      ap (λ (x : Result (Unit {0}) × Sqlite). x.0) done,
      ap (λ (x : Result (Unit {0}) × Sqlite). x.1.rows) done ∙ o.rows,
    )
