-- ===== src/Store/Handed.antt =====
-- Thread hands out the cached log by a pointer, and an author appends to that very log. AppendEntries on the
-- entry then finds it in the cached log and not in the table.
use lamdis.Prelude.{String, ◌≡◌, ◌≢◌, refl, sym, ap, ◌∙◌, subst, false, some, [], ◌∷◌, ◌++◌, arith}
use lamdis.Prelude.Eq.{string_eq, beq_refl}
use lamdis.Prelude.Lists.{In, In-append_left}
use lamdis.Prelude.Map.{lookup, lookup-insert}
use lamdis.Prelude.MapLaws.{insert-insert}
use lamdis.Result.{ok}
use lamdis.Exec.{lift, pure, ◌>>=◌, ◌>>◌}
use lamdis.Log.Authored.{IsTaken}
use lamdis.Log.Crypto.{Crypto}
use lamdis.Log.Entry.{Entry}
use lamdis.Log.Insertion.{In-insert_entry}
use lamdis.Log.Invariant.{IsChained}
use lamdis.Log.ThreadLog.{ThreadLog, admit}
use lamdis.Log.Appended.{append-IsChained, append-redelivered}
use lamdis.Store.Sqlite.{
  Row, Sqlite, max_rid, entries_of, id_stored, place_stored, put_log, update_log, persist,
  append_entry, append_entries, thread_log, refuses,
}
use lamdis.Store.Coherent.{IsLogOf, IsCoherent, IsOpened}
use lamdis.Store.Durable.{IsStored}
use lamdis.Store.NewRow.{
  with_row, with_row-IsCoherent, update_log-put_log, insert_row-with_row, place_free, id_free,
  admitted-IsLogOf, own_entries, new_row,
}

module _ (c : Crypto) (s : Sqlite) (id : String) (l : ThreadLog) (e : Entry) (h : String)
    (s1 : Sqlite) (o : IsOpened c s e.thread l s1) (t : IsTaken c l id e h)
    (unused : (r : Row) → In r s1.rows → r.entry.id ≢ id) (takes : refuses s1 e ≡ false) where
  abbrev l' : ThreadLog
  l' = admit l e h

  -- the state in which the author has appended to the cached log
  abbrev handed : Sqlite
  handed = put_log e.thread l' (max_rid e.thread s1.rows) s1

  chained : IsChained c l'
  chained = append-IsChained c l e o.log.chained t.small l' t.taken

  held : In e l'.entries
  unfolding admit
  held = In-insert_entry e l.entries

  log : IsLogOf c (s1.rows ++ new_row s1 e ∷ []) e.thread l'
  log = admitted-IsLogOf c s1 e l l' h o.log chained refl

  handed_kept :
      lookup e.thread handed.logs ≡ some (record { log = l'; max_rid = max_rid e.thread s1.rows })
  unfolding put_log
  handed_kept = rw (lookup-insert, beq_refl {K = String} e.thread) refl

  handed_log : thread_log c e.thread handed ≡ (ok l', handed)
  unfolding thread_log
  handed_log = rw (handed_kept, thread_log) (unfold put_log in ground arith)

  handed_again : update_log c e.thread l' handed ≡ handed
  unfolding put_log
  handed_again =
      update_log-put_log c handed e.thread l' l' (max_rid e.thread s1.rows) handed_kept
      ∙ ap (λ (m : _). record s1 { logs = m }) (insert-insert e.thread _ _ s1.logs)

  fresh : id_stored e.id s1.rows ≡ false
  fresh = id_free c s1 e l o.log (λ r i q. absurd (unused r i (q ∙ t.name))) t.fresh

  free : place_stored e s1.rows ≡ false
  free =
      place_free c s1 e l' chained held
        (λ x i. log.into x (
          subst (In x) (sym (own_entries s1 e))
            (In-append_left x (entries_of e.thread s1.rows) (e ∷ []) i)))
        fresh

  persisted : persist c e handed ≡ (ok tt, with_row e l' s1)
  unfolding persist put_log
  persisted = rw (persist, fresh, t.digest) (insert_row-with_row c s1 e l' fresh free takes)

  -- AppendEntries writes its row
  pub append_entry-handed : append_entry c e handed ≡ (ok tt, with_row e l' s1)
  unfolding append_entry
  append_entry-handed =
      rw
        (
          append_entry,
          ◌>>=◌,
          ◌>>◌,
          lift,
          handed_log,
          append-redelivered c l' e chained t.small held,
        )
        (ap (λ (x : Sqlite). persist c e x) handed_again ∙ persisted)

  pub append_entries-handed : append_entries c (e ∷ []) handed ≡ (ok tt, with_row e l' s1)
  unfolding append_entries
  append_entries-handed = rw (append_entries, ◌>>=◌, ◌>>◌, append_entry-handed, pure) refl

  pub handed-IsCoherent : IsCoherent c (with_row e l' s1)
  handed-IsCoherent = with_row-IsCoherent c s1 e l' o.coherent log

  pub handed-IsStored : IsStored c (with_row e l' s1) e
  unfolding put_log
  handed-IsStored = record { entry = e; held = log.from e held; name = refl; digest = refl }
