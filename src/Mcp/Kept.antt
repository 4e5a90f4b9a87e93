-- ===== src/Mcp/Kept.antt =====
-- The tool post_entry over the SQLite driver: what it posted is there after a restart.
use lamdis.Prelude.{
  ℕ, String, ◌≡◌, ◌≢◌, refl, sym, ap, ◌∙◌, subst, true, List, [], ◌∷◌, eqb, inl, inr, Bool-cases,
}
use lamdis.Prelude.Lists.{In, length}
use lamdis.Result.{ok, err, Result, thread_not_found, ok-injective, err-ne-ok}
use lamdis.Exec.{lift, pure, fail, ◌>>=◌, ◌>>◌}
use lamdis.Log.Author.{author_append}
use lamdis.Log.Authored.{CanAuthor, IsTaken, author_append-IsTaken}
use lamdis.Log.Crypto.{Crypto, CryptoLaws}
use lamdis.Log.Entry.{Entry}
use lamdis.Log.ThreadLog.{ThreadLog, ChainHead, admit}
use lamdis.Log.ChainKey.{ChainKey, key_of, chain_key_eq}
use lamdis.Log.Author.{head_or_zero}
use lamdis.Prelude.{suc, ◌<◌, i64_mod, add64, Option, none, some, false, arith}
use lamdis.Prelude.Map.{lookup}
use lamdis.Store.Sqlite.{
  Row, Sqlite, max_rid, put_log, update_log, append_entries, thread, thread_log, sqlite_store,
  refuses,
}
use lamdis.Store.Coherent.{IsCoherent, IsOpened, thread_log-IsOpened, restart}
use lamdis.Store.NewRow.{with_row, update_log-put_log}
use lamdis.Store.Handed.{append_entries-handed, handed-IsCoherent, handed-IsStored}
use lamdis.Store.Restarted.{IsServed, IsStored-IsServed, entries_reply}
use lamdis.Owner.Authority.{HasRoom}
use lamdis.Mcp.Tools.{post_draft, post_entry}
use lamdis.Mcp.Posted.{posted, post_draft-CanAuthor}
use lamdis.Mcp.Words.{concat}

-- the author appends to the log that the driver has cached
abbrev pub keep_cached : Crypto → ThreadLog → Sqlite → Sqlite
keep_cached c l s = update_log c l.thread l s

-- Thread gives the log that threadLog has opened.
pub thread-IsOpened :
    (c : Crypto) (s s1 : Sqlite) (t : String) (l m : ThreadLog)
    → (thread c t s).0 ≡ ok l
    → IsOpened c s t m s1
    → thread c t s ≡ (ok m, s1)
unfolding thread
thread-IsOpened c s s1 t l m found o = elim (Bool-cases (eqb (length m.entries) 0)) [
  | inr q ↦ rw (thread, ◌>>=◌, o.returned, q, pure) refl
  | inl q ↦ absurd (err-ne-ok thread_not_found l (sym (failed q) ∙ found))
]
  where
    failed : eqb (length m.entries) 0 ≡ true → (thread c t s).0 ≡ err thread_not_found
    failed q = rw (thread, ◌>>=◌, o.returned, q, fail) refl

-- The database takes the thread's next entry: its numbers fit a signed one, and the write does not fail.
pub record CanStore (l : ThreadLog) (ulid : String) (s : Sqlite) : Type 0 where
  pub clock : suc l.lamport < i64_mod
  pub number : (k : ChainKey) (h : ChainHead) → lookup k l.heads ≡ some h → suc h.seq < i64_mod
  pub writes : (e : Entry) → e.id ≡ ulid → s.write_fails s.rows e ≡ false

next_seq_lt :
    (o : Option ChainHead)
    → ((h : ChainHead) → o ≡ some h → suc h.seq < i64_mod)
    → add64 (head_or_zero o).seq 1 < i64_mod
unfolding head_or_zero
next_seq_lt none small = omega arith
next_seq_lt (some h) small = omega (arith, small h refl)

taken-CanStore :
    (c : Crypto) (l m : ThreadLog) (ulid t h : String) (s s1 : Sqlite) (e : Entry)
    → IsOpened c s t m s1
    → IsTaken c l ulid e h
    → CanStore l ulid s
    → refuses s1 e ≡ false
unfolding refuses
taken-CanStore c l m ulid t h s s1 e o taken can =
    let writes : s1.write_fails s1.rows e ≡ false =
      rw (o.faults, o.rows) (can.writes e taken.name) in
    let low : e.seq < i64_mod =
      rw taken.number (next_seq_lt (lookup (key_of e) l.heads) (can.number (key_of e))) in
    let early : e.lamport < i64_mod = omega (arith, taken.clock, can.clock) in
    ground (arith, low, early, writes)

-- The entry that the tool posted, and the state of the driver after it.
pub record IsKept (c : Crypto) (ulid thread lane text : String) (e : Entry)
    (r : Result String × Sqlite) : Type 0 where
  pub answered :
      r.0 ≡ ok (concat ("posted " ∷ ulid ∷ " to " ∷ (post_draft lane text).lane ∷ " lane" ∷ []))
  pub name : e.id ≡ ulid
  pub coherent : IsCoherent c r.1
  pub served : IsServed c e (entries_reply (lamdis.Store.Sqlite.thread c thread (restart r.1)).0)

module _ (c : Crypto) (priv : List ℕ) (id ts thread lane text : String) (s s1 : Sqlite)
    (l : ThreadLog) (h : String) (e : Entry)
    (made : author_append c priv l id ts (post_draft lane text) ≡ ok (admit l e h, e))
    (taken : IsTaken c l id e h) (takes : refuses s1 e ≡ false)
    (unused : (r : Row) → In r s1.rows → r.entry.id ≢ id)
    (found : lamdis.Store.Sqlite.thread c thread s ≡ (ok l, s1)) where
  ran :
      IsOpened c s e.thread l s1
      → post_entry c (sqlite_store c) (keep_cached c) priv id ts thread lane text s
        ≡ (posted e (post_draft lane text).lane (ok tt), with_row e (admit l e h) s1)
  unfolding post_entry admit
  ran o =
      let cached : keep_cached c (admit l e h) s1
          ≡ put_log e.thread (admit l e h) (max_rid e.thread s1.rows) s1 =
        ap (λ (x : String). update_log c x (admit l e h) s1) (sym taken.thread)
        ∙ update_log-put_log c s1 e.thread l (admit l e h) (max_rid e.thread s1.rows) o.kept in
      rw
        (
          post_entry,
          ◌>>=◌,
          ◌>>◌,
          lift,
          found,
          made,
          cached,
          append_entries-handed c s id l e h s1 o taken unused takes,
        )
        refl

  kept :
      e.thread ≡ thread
      → IsOpened c s e.thread l s1
      → IsKept c id thread lane text e
          (post_entry c (sqlite_store c) (keep_cached c) priv id ts thread lane text s)
  unfolding admit
  kept at o = subst (IsKept c id thread lane text e) (sym (ran o)) (record {
    answered =
        ap
          (λ (x : String).
            ok (concat ("posted " ∷ x ∷ " to " ∷ (post_draft lane text).lane ∷ " lane" ∷ [])))
          taken.name;
    name = taken.name;
    coherent = handed-IsCoherent c s id l e h s1 o taken unused takes;
    served =
        subst
          (λ (x : String). IsServed c e (
            entries_reply
              (lamdis.Store.Sqlite.thread c x (restart (with_row e (admit l e h) s1))).0))
          at
          (IsStored-IsServed c (with_row e (admit l e h) s1) e
            (handed-IsCoherent c s id l e h s1 o taken unused takes)
            (handed-IsStored c s id l e h s1 o taken unused takes));
  })

-- If every cached log of the driver is the log of its thread's rows, the thread is found, its log has
-- room for one more entry, no row has the fresh id, and the database takes the entry, whose numbers
-- are below 2^63, then the tool post_entry succeeds: it answers
-- with the id, every cached log is still the log of its thread's rows, and after a restart the thread
-- is answered with entries of which one has the id and the hash of the entry that was posted.
pub post_entry-IsKept :
    (c : Crypto) (laws : CryptoLaws c) (priv : List ℕ) (id ts thread lane text : String)
    (s : Sqlite) (l : ThreadLog)
    → IsCoherent c s
    → (lamdis.Store.Sqlite.thread c thread s).0 ≡ ok l
    → HasRoom l id
    → ((r : Row) → In r s.rows → r.entry.id ≢ id)
    → CanStore l id s
    → (e : Entry) × IsKept c id thread lane text e
        (post_entry c (sqlite_store c) (keep_cached c) priv id ts thread lane text s)
post_entry-IsKept c laws priv id ts thread lane text s l inv found room unused store =
    let (m, s1, o) = thread_log-IsOpened c s thread inv in
    let run : lamdis.Store.Sqlite.thread c thread s ≡ (ok m, s1) =
      thread-IsOpened c s s1 thread l m found o in
    let same : l ≡ m = ok-injective (sym found ∙ ap (λ (x : Result ThreadLog × Sqlite). x.0) run) in
    let here_room : HasRoom m id = subst (λ (x : ThreadLog). HasRoom x id) same room in
    let can : CanAuthor m id (post_draft lane text) =
      post_draft-CanAuthor m id lane text here_room in
    let (h, e, made, taken) =
      author_append-IsTaken c laws priv m o.log.chained id ts (post_draft lane text) can in
    let at : e.thread ≡ thread = taken.thread ∙ o.log.named in
    (
      e,
      kept c priv id ts thread lane text s s1 m h e made taken
          (taken-CanStore c m m id thread h s s1 e o taken
            (subst (λ (x : ThreadLog). CanStore x id s) same store))
          (λ r i. unused r (subst (In r) o.rows i)) run at
          (subst (λ (x : String). IsOpened c s x m s1) (sym at) o),
    )
