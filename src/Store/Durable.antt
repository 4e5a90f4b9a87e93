-- ===== src/Store/Durable.antt =====
-- A round of AppendEntries, on every branch: what it leaves of the cache and the rows, and what it stored.
use lamdis.Prelude.{
  ◌++◌, ◌<◌, ◌≡◌, refl, sym, ap, ◌∙◌, subst, ◌⊎◌, inl, inr, true, false, [], ◌∷◌, u64_mod,
  Bool-cases,
}
use lamdis.Prelude.Eq.{string_eq}
use lamdis.Prelude.Lists.{In, here, there, In-append, In-append_left}
use lamdis.Result.{ok, err, not_stored, Error, Result, Result-cases}
use lamdis.Exec.{lift, ◌>>=◌, ◌>>◌}
use lamdis.Log.Crypto.{Crypto}
use lamdis.Log.Entry.{Entry}
use lamdis.Log.Invariant.{IsChained}
use lamdis.Log.Insertion.{In-insert_entry}
use lamdis.Log.ThreadLog.{ThreadLog, admit, append, hash_or_empty}
use lamdis.Log.Appended.{append-IsChained}
use lamdis.Log.Admitted.{IsKnown, IsAdmitted, append-cases}
use lamdis.Store.Sqlite.{
  Row, Sqlite, max_rid, entries_of, id_stored, place_stored, put_log, persist, append_entry,
  refuses, insert_row,
}
use lamdis.Store.Rows.{entries_of-Stored, id_stored-of_In}
use lamdis.Store.Coherent.{
  IsLogOf, IsCoherent, HasLogs, IsOpened, put_log-IsCoherent, thread_log-IsOpened,
}
use lamdis.Store.NewRow.{
  with_row, with_row-IsCoherent, update_log-put_log, insert_row-with_row, place_free, id_free,
  admitted-IsLogOf, own_entries, new_row,
}

-- a row holds an entry of the thread with its id and hash
pub record IsStored (c : Crypto) (s : Sqlite) (e : Entry) : Type 0 where
  pub entry : Entry
  pub held : In entry (entries_of e.thread s.rows)
  pub name : entry.id ≡ e.id
  pub digest : hash_or_empty c entry ≡ hash_or_empty c e

-- what a round of AppendEntries does, whether or not it fails
pub record IsRound (c : Crypto) (s : Sqlite) (e : Entry) (r : Result (Unit {0}) × Sqlite)
    : Type 0 where
  pub coherent : (r.0 ≡ err not_stored) ⊎ IsCoherent c r.1
  pub logged : HasLogs c r.1.rows
  pub kept : (x : Row) → In x s.rows → In x r.1.rows
  pub grown : (x : Row) → In x r.1.rows → In x s.rows ⊎ (x.entry ≡ e)
  pub stored : r.0 ≡ ok tt → IsStored c r.1 e

-- append_entry, once threadLog has opened the log
module _ (c : Crypto) (s : Sqlite) (e : Entry) (l : ThreadLog) (s1 : Sqlite)
    (o : IsOpened c s e.thread l s1) where
  refused : (x : Error) → append c l e ≡ err x → append_entry c e s ≡ (err x, s1)
  unfolding append_entry
  refused x h = rw (append_entry, ◌>>=◌, ◌>>◌, lift, o.returned, h) refl

  pub taken :
      (l' : ThreadLog)
      → append c l e ≡ ok l'
      → append_entry c e s ≡ persist c e (put_log e.thread l' (max_rid e.thread s1.rows) s1)
  unfolding append_entry
  taken l' h =
      rw (append_entry, ◌>>=◌, ◌>>◌, lift, o.returned, h)
        (ap (λ (x : Sqlite). persist c e x)
          (update_log-put_log c s1 e.thread l l' (max_rid e.thread s1.rows) o.kept))

module _ (c : Crypto) (s : Sqlite) (e : Entry) (small : e.seq < u64_mod)
    (own : (r : Row) → In r s.rows → r.entry.id ≡ e.id → r.entry.thread ≡ e.thread) where
  module _ (l : ThreadLog) (s1 : Sqlite) (o : IsOpened c s e.thread l s1) where
    refused-IsRound : (x : Error) → append c l e ≡ err x → IsRound c s e (append_entry c e s)
    refused-IsRound x h = subst (IsRound c s e) (sym (refused c s e l s1 o x h)) (record {
      coherent = inr o.coherent;
      logged = o.coherent.logged;
      kept = λ r i. subst (In r) (sym o.rows) i;
      grown = λ r i. inl (subst (In r) o.rows i);
      stored = λ q. cc;
    })

    own1 : (r : Row) → In r s1.rows → r.entry.id ≡ e.id → r.entry.thread ≡ e.thread
    own1 r i q = own r (subst (In r) o.rows i) q

    -- the log had the entry: nothing is written
    known-IsRound :
        (l' : ThreadLog)
        → append c l e ≡ ok l'
        → IsKnown c l e l'
        → IsRound c s e (append_entry c e s)
    unfolding persist
    known-IsRound l' h k =
        let (held, name) = o.log.chained.listed e.id k.prior k.found in
        let row = entries_of-Stored e.thread s1.rows k.prior (o.log.from k.prior held) in
        let there_ : id_stored e.id s1.rows ≡ true =
          id_stored-of_In e.id row.row s1.rows row.held
            (ap (λ (x : Entry). x.id) row.entry ∙ name) in
        let run : append_entry c e s ≡ (ok tt, put_log e.thread l' (max_rid e.thread s1.rows) s1) =
          taken c s e l s1 o l' h ∙ unfold put_log in (rw (there_, persist) refl) in
        subst (IsRound c s e) (sym run) (
          unfold put_log in
          record {
            coherent = inr (
                unfold put_log in
                put_log-IsCoherent c s1 e.thread l' o.coherent
                  (subst (IsLogOf c s1.rows e.thread) k.same o.log));
            logged = o.coherent.logged;
            kept = λ r i. subst (In r) (sym o.rows) i;
            grown = λ r i. inl (subst (In r) o.rows i);
            stored = λ q. record {
              entry = k.prior;
              held = o.log.from k.prior held;
              name = name;
              digest = k.digest;
            };
          })

    -- the log admits the entry: its row is written, unless the database refuses it
    pub admitted_run :
        (l' : ThreadLog)
        → append c l e ≡ ok l'
        → IsAdmitted c l e l'
        → (refuses s1 e ≡ false → append_entry c e s ≡ (ok tt, with_row e l' s1))
          × (refuses s1 e ≡ true
              → append_entry c e s
                ≡ (err not_stored, put_log e.thread l' (max_rid e.thread s1.rows) s1))
          × IsLogOf c (s1.rows ++ new_row s1 e ∷ []) e.thread l'
          × In e l'.entries
    unfolding persist admit put_log refuses insert_row
    admitted_run l' h a =
        let chained : IsChained c l' = append-IsChained c l e o.log.chained small l' h in
        let held : In e l'.entries =
          subst (λ (x : ThreadLog). In e x.entries) a.grown (In-insert_entry e l.entries) in
        let log = admitted-IsLogOf c s1 e l l' a.hashed o.log chained a.grown in
        let fresh : id_stored e.id s1.rows ≡ false = id_free c s1 e l o.log own1 a.fresh in
        let free : place_stored e s1.rows ≡ false =
          place_free c s1 e l' chained held
            (λ x i. log.into x (
              subst (In x) (sym (own_entries s1 e))
                (In-append_left x (entries_of e.thread s1.rows) (e ∷ []) i)))
            fresh in
        (
          λ takes.
              taken c s e l s1 o l' h
              ∙ rw (persist, fresh, a.digest) (insert_row-with_row c s1 e l' fresh free takes),
          λ out. taken c s e l s1 o l' h ∙ rw (persist, fresh, a.digest, insert_row, out) refl,
          log,
          held,
        )

    -- The transaction failed: no row is written, and the cached log has the entry.
    unstored-IsRound :
        (l' : ThreadLog)
        → append_entry c e s ≡ (err not_stored, put_log e.thread l' (max_rid e.thread s1.rows) s1)
        → IsRound c s e (append_entry c e s)
    unfolding put_log
    unstored-IsRound l' run = subst (IsRound c s e) (sym run) (record {
      coherent = inl refl;
      logged = o.coherent.logged;
      kept = λ r i. subst (In r) (sym o.rows) i;
      grown = λ r i. inl (subst (In r) o.rows i);
      stored = λ q. cc;
    })

    written-IsRound :
        (l' : ThreadLog)
        → append_entry c e s ≡ (ok tt, with_row e l' s1)
        → IsLogOf c (s1.rows ++ new_row s1 e ∷ []) e.thread l'
        → In e l'.entries
        → IsRound c s e (append_entry c e s)
    unfolding put_log
    written-IsRound l' run log held =
        let after = with_row-IsCoherent c s1 e l' o.coherent log in
        subst (IsRound c s e) (sym run) (record {
          coherent = inr after;
          logged = after.logged;
          kept = λ r i.
              unfold put_log in
              In-append_left r s1.rows (new_row s1 e ∷ []) (subst (In r) (sym o.rows) i);
          grown = λ r i. elim (In-append r s1.rows (new_row s1 e ∷ []) (unfold put_log in i)) [
            | inl j ↦ inl (subst (In r) o.rows j)
            | inr (here q) ↦ inr (ap (λ (x : Row). x.entry) q)
            | inr (there j) ↦ elim j [ ]
          ];
          stored = λ q. record {
            entry = e;
            held = unfold put_log in log.from e held;
            name = refl;
            digest = refl;
          };
        })

    admitted-IsRound :
        (l' : ThreadLog)
        → append c l e ≡ ok l'
        → IsAdmitted c l e l'
        → IsRound c s e (append_entry c e s)
    admitted-IsRound l' h a =
        let (written, unstored, log, held) = admitted_run l' h a in
        elim (Bool-cases (refuses s1 e)) [
          | inl out ↦ unstored-IsRound l' (unstored out)
          | inr takes ↦ written-IsRound l' (written takes) log held
        ]

  pub append_entry-IsRound : IsCoherent c s → IsRound c s e (append_entry c e s)
  append_entry-IsRound inv =
      let (l, s1, o) = thread_log-IsOpened c s e.thread inv in
      elim (Result-cases (append c l e)) [
        | inr (x, h) ↦ refused-IsRound l s1 o x h
        | inl (l', h) ↦ elim ((append-cases c l e l' h).1) [
          | inl k ↦ known-IsRound l s1 o l' h k
          | inr a ↦ admitted-IsRound l s1 o l' h a
        ]
      ]
