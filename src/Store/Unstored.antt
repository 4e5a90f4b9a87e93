-- ===== src/Store/Unstored.antt =====
-- AppendEntries of an entry whose row the database does not take: the cached log has it all the same.
use lamdis.Prelude.{String, ◌≡◌, refl, sym, ap, ◌∙◌, subst, true, false, some, arith, inl, inr}
use lamdis.Prelude.Eq.{string_eq, beq_refl}
use lamdis.Prelude.Lists.{In}
use lamdis.Prelude.Map.{lookup, lookup-insert}
use lamdis.Result.{Result, ok, err, not_stored, ok-injective}
use lamdis.Log.Crypto.{Crypto}
use lamdis.Log.Entry.{Entry}
use lamdis.Log.Insertion.{In-insert_entry}
use lamdis.Log.ThreadLog.{ThreadLog, append, admit}
use lamdis.Log.Admitted.{IsAdmitted, append-cases}
use lamdis.Store.Sqlite.{
  Sqlite, append_entry, thread_log, persist, insert_row, refuses, put_log, max_rid, id_stored,
}
use lamdis.Store.Rows.{entries_of-Stored, id_stored-of_In}
use lamdis.Store.Coherent.{IsCoherent, IsOpened, thread_log-IsOpened}
use lamdis.Store.Durable.{taken}

-- a log of the rows admits an entry anew, where no row has its id
fresh-IsAdmitted :
    (c : Crypto) (s s1 : Sqlite) (e : Entry) (l l' : ThreadLog)
    → IsOpened c s e.thread l s1
    → append c l e ≡ ok l'
    → id_stored e.id s1.rows ≡ false
    → IsAdmitted c l e l'
fresh-IsAdmitted c s s1 e l l' o h fresh = elim ((append-cases c l e l' h).1) [
  | inr a ↦ a
  | inl k ↦
      let (held, name) = o.log.chained.listed e.id k.prior k.found in
      let row = entries_of-Stored e.thread s1.rows k.prior (o.log.from k.prior held) in
      let stored : id_stored e.id s1.rows ≡ true =
        id_stored-of_In e.id row.row s1.rows row.held (ap (λ (x : Entry). x.id) row.entry ∙ name) in
      absurd (cc (stored, fresh))
]

-- the log that was put in the cache is the one that threadLog gives
put_log-thread_log :
    (c : Crypto) (s : Sqlite) (t : String) (l : ThreadLog)
    → (thread_log c t (put_log t l (max_rid t s.rows) s)).0 ≡ ok l
unfolding thread_log
put_log-thread_log c s t l =
    let kept : lookup t (put_log t l (max_rid t s.rows) s).logs
        ≡ some (record { log = l; max_rid = max_rid t s.rows }) =
      unfold put_log in (rw (lookup-insert, beq_refl {K = String} t) refl) in
    rw (kept, thread_log) (unfold put_log in ground arith)

-- If every cached log is the log of its thread's rows, no row has the id of an entry, the log of its
-- thread takes the entry, and the database does not take its row, then AppendEntries fails and adds no
-- row, and yet the thread's cached log is the longer one, which has the entry.
pub append_entry-unstored :
    (c : Crypto) (s : Sqlite) (e : Entry) (l l' : ThreadLog)
    → IsCoherent c s
    → (thread_log c e.thread s).0 ≡ ok l
    → append c l e ≡ ok l'
    → id_stored e.id s.rows ≡ false
    → refuses s e ≡ true
    → ((append_entry c e s).0 ≡ err not_stored)
      × ((append_entry c e s).1.rows ≡ s.rows)
      × ((thread_log c e.thread (append_entry c e s).1).0 ≡ ok l')
      × In e l'.entries
unfolding persist insert_row refuses put_log
append_entry-unstored c s e l l' inv opened h fresh out =
    let (m, s1, o) = thread_log-IsOpened c s e.thread inv in
    let same : l ≡ m =
      ok-injective (sym opened ∙ ap (λ (x : Result ThreadLog × Sqlite). x.0) o.returned) in
    let h1 : append c m e ≡ ok l' = subst (λ (x : ThreadLog). append c x e ≡ ok l') same h in
    let fresh1 : id_stored e.id s1.rows ≡ false = rw o.rows fresh in
    let out1 : refuses s1 e ≡ true = unfold refuses in (rw (o.faults, o.rows) out) in
    let a : IsAdmitted c m e l' = fresh-IsAdmitted c s s1 e m l' o h1 fresh1 in
    let done : append_entry c e s
        ≡ (err not_stored, put_log e.thread l' (max_rid e.thread s1.rows) s1) =
      taken c s e m s1 o l' h1 ∙ rw (persist, fresh1, a.digest, insert_row, out1) refl in
    (
      ap (λ (x : Result (Unit {0}) × Sqlite). x.0) done,
      ap (λ (x : Result (Unit {0}) × Sqlite). x.1.rows) done ∙ o.rows,
      ap (λ (x : Result (Unit {0}) × Sqlite). (thread_log c e.thread x.1).0) done
          ∙ put_log-thread_log c s1 e.thread l',
      unfold admit in
          subst (λ (x : ThreadLog). In e x.entries) a.grown (In-insert_entry e m.entries),
    )
