-- ===== src/Store/Grown.antt =====
-- AppendEntries of an entry that opens a chain: the thread's answer grows by that entry.
use lamdis.Prelude.{
  ◌<◌, ◌≡◌, ◌≢◌, refl, sym, ap, ◌∙◌, subst, List, [], ◌∷◌, ◌++◌, arith, u64_mod, i64_mod, false,
}
use lamdis.Prelude.Lists.{In}
use lamdis.Result.{ok}
use lamdis.Exec.{pure, ◌>>=◌, ◌>>◌}
use lamdis.Log.Admitted.{IsAdmitted}
use lamdis.Log.ChainKey.{key_of}
use lamdis.Log.Crypto.{Crypto}
use lamdis.Log.Entry.{Entry}
use lamdis.Log.FirstEntry.{IsFirstOf, id_absent, append-first}
use lamdis.Log.LastEntry.{insert_entry-newest}
use lamdis.Log.ThreadLog.{ThreadLog, admit, insert_entry}
use lamdis.Store.Sqlite.{Row, Sqlite, entries_of, put_log, append_entry, append_entries, refuses}
use lamdis.Store.Rows.{entries_of-Stored}
use lamdis.Store.Coherent.{IsLogOf, IsCoherent, IsOpened, thread_log-IsOpened}
use lamdis.Store.NewRow.{with_row, with_row-IsCoherent, new_row}
use lamdis.Store.Durable.{admitted_run}
use lamdis.Store.Restarted.{IsLogOf-unique}

-- A valid entry that opens a chain of its thread, under an id that no row has, newer than the thread's rows.
pub record OpensChain (c : Crypto) (e : Entry) (s : Sqlite) : Type 0 where
  pub first : IsFirstOf c e
  pub unused : (r : Row) → In r s.rows → r.entry.id ≢ e.id
  pub unwritten : (x : Entry) → In x (entries_of e.thread s.rows) → key_of x ≢ key_of e
  pub newest : (x : Entry) → In x (entries_of e.thread s.rows) → x.lamport < e.lamport
  -- and that the database takes
  pub lamport : e.lamport < i64_mod
  pub writes : s.write_fails s.rows e ≡ false

-- The state in which the entry stands at the end of its thread.
pub record IsGrown (c : Crypto) (s : Sqlite) (e : Entry) (s3 : Sqlite) : Type 0 where
  pub coherent : IsCoherent c s3
  pub entries :
      (l m : ThreadLog)
      → IsLogOf c s.rows e.thread l
      → IsLogOf c s3.rows e.thread m
      → m.entries ≡ l.entries ++ e ∷ []

module _ (c : Crypto) (s : Sqlite) (e : Entry) (opens : OpensChain c e s) (l : ThreadLog)
    (s1 : Sqlite) (o : IsOpened c s e.thread l s1) where
  log : IsLogOf c s.rows e.thread l
  log = subst (λ (rows : List Row). IsLogOf c rows e.thread l) o.rows o.log

  small : e.seq < u64_mod
  small = omega (arith, opens.first.seq)

  own : e.thread ≡ l.thread
  own = sym log.named

  takes : refuses s1 e ≡ false
  unfolding refuses
  takes =
      let writes : s1.write_fails s1.rows e ≡ false = rw (o.faults, o.rows) opens.writes in
      ground (arith, opens.first.seq, opens.lamport, writes)

  ids : (x : Entry) → In x l.entries → x.id ≢ e.id
  ids x i q =
      let row = entries_of-Stored e.thread s.rows x (log.from x i) in
      opens.unused row.row row.held (ap (λ (y : Entry). y.id) row.entry ∙ q)

  opened-IsGrown : (s3 : Sqlite) × (append_entry c e s ≡ (ok tt, s3)) × IsGrown c s e s3
  unfolding put_log admit
  opened-IsGrown =
      let keys : (x : Entry) → In x l.entries → key_of x ≢ key_of e =
        λ x i. opens.unwritten x (log.from x i) in
      let (d, digest, taken) = append-first c l e log.chained opens.first own ids keys in
      let admitted : IsAdmitted c l e (admit l e d) = record {
        fresh = id_absent c l e log.chained opens.first own ids keys;
        hashed = d;
        digest = digest;
        grown = refl;
      } in
      let (written, _, after, held) =
        admitted_run c s e small (λ r i q. absurd (opens.unused r i q)) l s1 o (admit l e d) taken
          admitted in
      let last : insert_entry e l.entries ≡ l.entries ++ e ∷ [] =
        insert_entry-newest e l.entries log.chained.sorted (λ x i. opens.newest x (log.from x i)) in
      (
        with_row e (admit l e d) s1,
        written takes,
        record {
          coherent = with_row-IsCoherent c s1 e (admit l e d) o.coherent after;
          entries = λ k m before now.
              IsLogOf-unique c (s1.rows ++ new_row s1 e ∷ []) e.thread m (admit l e d) now after
              ∙ last
              ∙ ap (λ (es : List Entry). es ++ e ∷ [])
                  (IsLogOf-unique c s.rows e.thread l k log before);
        },
      )

pub append_entries-IsGrown :
    (c : Crypto) (s : Sqlite) (e : Entry)
    → IsCoherent c s
    → OpensChain c e s
    → (s3 : Sqlite) × (append_entries c (e ∷ []) s ≡ (ok tt, s3)) × IsGrown c s e s3
unfolding append_entries
append_entries-IsGrown c s e inv opens =
    let (l, s1, o) = thread_log-IsOpened c s e.thread inv in
    let (s3, run, grown) = opened-IsGrown c s e opens l s1 o in
    (s3, rw (append_entries, ◌>>=◌, ◌>>◌, run, pure) refl, grown)
