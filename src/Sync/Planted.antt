-- ===== src/Sync/Planted.antt =====
-- What a push to an unknown thread can write: its first entry goes to the thread that the entry names.
use lamdis.Prelude.{
  String, ◌≡◌, refl, sym, ap, ◌∙◌, subst, true, false, not, ◌||◌, Option, some, List, [], ◌∷◌, ◌++◌,
  inl, inr, arith,
}
use lamdis.Prelude.Eq.{◌==◌, string_eq}
use lamdis.Prelude.Lists.{In, here, In-append_right}
use lamdis.Prelude.Map.{has}
use lamdis.Prelude.Sort.{insertion_sort}
use lamdis.Json.Bodies.{ThreadBody, decode_thread}
use lamdis.Result.{Error, Result, ok, err, thread_not_found, ok-injective, err-ne-ok}
use lamdis.Exec.{attempt, ◌>>=◌, ◌>>◌}
use lamdis.Log.Crypto.{Crypto}
use lamdis.Log.Entry.{Entry, lane_control, kind_thread}
use lamdis.Log.ThreadLog.{ThreadLog}
use lamdis.Perm.Apply.{fold}
use lamdis.Perm.State.{Time}
use lamdis.Perm.Strangers.{thread_entry_makes_steward}
use lamdis.Store.Sqlite.{Row, Sqlite, append_entries, thread, sqlite_store, entries_of}
use lamdis.Store.Coherent.{IsLogOf, IsCoherent, IsOpened, thread_log-IsOpened}
use lamdis.Store.Grown.{OpensChain, append_entries-IsGrown}
use lamdis.Store.Restarted.{entries_reply, thread-entries_reply, reply_of_held, thread-cases}
use lamdis.Owner.Authority.{fold-last}
use lamdis.Sync.Order.{order_for_append}
use lamdis.Sync.Server.{
  PushRequest, PushResponse, check_all, push_checked, bootstrap, push_on, push,
}

module _ (c : Crypto) (parse_time : String → Option Time) (now : Time) (principal : String)
    (t : String) (e : Entry) where
  abbrev one_entry : PushRequest
  one_entry = record { thread = t; entries = e ∷ [] }

  -- the first entry is written, and nothing else
  bootstrap-state :
      (s1 s3 s4 : Sqlite) (m : ThreadLog)
      → e.id ≡ t
      → e.author ≡ principal
      → append_entries c (e ∷ []) s1 ≡ (ok tt, s3)
      → IsOpened c s3 t m s4
      → (bootstrap (sqlite_store c) parse_time principal one_entry 1 (e ∷ []) s1).1 ≡ s4
  unfolding bootstrap push_checked check_all append_entries
  bootstrap-state s1 s3 s4 m id author run o =
      let mine : (not (e.id == t) || not (e.author == principal)) ≡ false =
        ground
          (arith, id, author, string_eq.beq_iff e.id t, string_eq.beq_iff e.author principal) in
      elim (thread-cases c s3 s4 t m o) [
        | inl found ↦ rw (mine, bootstrap, ◌>>=◌, ◌>>◌, run, found) refl
        | inr absent ↦ rw (mine, bootstrap, ◌>>=◌, ◌>>◌, run, absent) refl
      ]

  push-bootstrap :
      (s s1 : Sqlite) (x : Error)
      → thread c t s ≡ (err x, s1)
      → push (sqlite_store c) parse_time now principal one_entry s
        ≡ bootstrap (sqlite_store c) parse_time principal one_entry 1 (e ∷ []) s1
  unfolding push push_on order_for_append insertion_sort
  push-bootstrap s s1 x absent = rw (push, ◌>>=◌, attempt, absent, push_on) refl

  absent_run :
      (s s1 : Sqlite) (x : Error) (m : ThreadLog)
      → (thread c t s).0 ≡ err x
      → IsOpened c s t m s1
      → thread c t s ≡ (err thread_not_found, s1)
  absent_run s s1 x m absent o = elim (thread-cases c s s1 t m o) [
    | inr q ↦ q
    | inl q ↦ absurd (err-ne-ok x m (sym absent ∙ ap (λ (r : Result ThreadLog × Sqlite). r.0) q))
  ]

-- the log that Thread gave is a log of the thread's rows
found_log :
    (c : Crypto) (s : Sqlite) (t : String) (l : ThreadLog)
    → IsCoherent c s
    → (thread c t s).0 ≡ ok l
    → IsLogOf c s.rows t l
found_log c s t l inv found =
    let (m, s1, o) = thread_log-IsOpened c s t inv in
    let log : IsLogOf c s.rows t m = subst (λ (rows : List Row). IsLogOf c rows t m) o.rows o.log in
    elim (thread-cases c s s1 t m o) [
      | inl q ↦
          subst (IsLogOf c s.rows t)
            (ok-injective (sym (ap (λ (r : Result ThreadLog × Sqlite). r.0) q) ∙ found)) log
      | inr q ↦ absurd (
          err-ne-ok thread_not_found l
            (sym (ap (λ (r : Result ThreadLog × Sqlite). r.0) q) ∙ found))
    ]

-- What threadLog opens, it leaves the rows and what the database does.
OpensChain-opened :
    (c : Crypto) (e : Entry) (s s1 : Sqlite) (t : String) (m : ThreadLog)
    → IsOpened c s t m s1
    → OpensChain c e s
    → OpensChain c e s1
OpensChain-opened c e s s1 t m o opens = record {
  first = opens.first;
  unused = λ r i. opens.unused r (subst (In r) o.rows i);
  unwritten = λ x i. opens.unwritten x (subst (λ rows. In x (entries_of e.thread rows)) o.rows i);
  newest = λ x i. opens.newest x (subst (λ rows. In x (entries_of e.thread rows)) o.rows i);
  lamport = opens.lamport;
  writes = rw (o.faults, o.rows) opens.writes;
}

-- What a push of one entry leaves, where it is taken for the genesis of an unknown thread: Thread
-- answers with the entry at the end of the thread that it names.
push-entries :
    (c : Crypto) (parse_time : String → Option Time) (now : Time) (principal t : String) (e : Entry)
    (s : Sqlite) (x : Error) (l : ThreadLog)
    → IsCoherent c s
    → (thread c t s).0 ≡ err x
    → e.id ≡ t
    → e.author ≡ principal
    → (thread c e.thread s).0 ≡ ok l
    → OpensChain c e s
    → entries_reply
        (thread c e.thread
          (push
            (sqlite_store c)
            parse_time
            now
            principal
            (one_entry c parse_time now principal t e)
            s).1).0
      ≡ ok (l.entries ++ e ∷ [])
push-entries c parse_time now principal t e s x l inv absent id author found opens =
    let (m, s1, o) = thread_log-IsOpened c s t inv in
    let (s3, run, grown) =
      append_entries-IsGrown c s1 e o.coherent (OpensChain-opened c e s s1 t m o opens) in
    let (m4, s4, o4) = thread_log-IsOpened c s3 t grown.coherent in
    let (m5, s5, o5) = thread_log-IsOpened c s4 e.thread o4.coherent in
    let last : (push (sqlite_store c) parse_time now principal
          (one_entry c parse_time now principal t e) s).1
        ≡ s4 =
      ap (λ (r : Result PushResponse × Sqlite). r.1)
        (push-bootstrap c parse_time now principal t e s s1 thread_not_found
          (absent_run c parse_time now principal t e s s1 x m absent o))
      ∙ bootstrap-state c parse_time now principal t e s1 s3 s4 m4 id author run o4 in
    let before : IsLogOf c s1.rows e.thread l =
      subst (λ (rows : List Row). IsLogOf c rows e.thread l) (sym o.rows)
        (found_log c s e.thread l inv found) in
    let after : IsLogOf c s3.rows e.thread m5 =
      subst (λ (rows : List Row). IsLogOf c rows e.thread m5) (o5.rows ∙ o4.rows) o5.log in
    ap (λ (z : Sqlite). entries_reply (thread c e.thread z).0) last
    ∙ thread-entries_reply c s4 s5 e.thread m5 o5.returned
    ∙ reply_of_held m5 (l.entries ++ e ∷ []) e (grown.entries l m5 before after)
        (In-append_right e l.entries (e ∷ []) (here refl))

-- If a caller pushes one entry to a thread that the server does not hold, the entry has that thread's id
-- and the caller as its author, but names another thread, which the server holds, and if it is a valid
-- core.thread entry that opens the caller's control chain in that thread, under an id that no row has,
-- and is newer than the thread's entries, and the database takes it, then after the push, whatever it answers, Thread gives the
-- log of the named thread with the entry at its end, and in its fold whoever the entry names is a
-- steward. Every cached log is taken to be the log of its thread's rows.
pub push-plants :
    (c : Crypto) (parse_time : String → Option Time) (now : Time) (principal t : String) (e : Entry)
    (s : Sqlite) (x : Error) (l : ThreadLog) (b : ThreadBody) (p : String)
    → IsCoherent c s
    → (thread c t s).0 ≡ err x
    → e.id ≡ t
    → e.author ≡ principal
    → (thread c e.thread s).0 ≡ ok l
    → OpensChain c e s
    → e.lane ≡ lane_control
    → e.kind ≡ kind_thread
    → decode_thread e.body ≡ some b
    → In p b.stewards
    → (es : List Entry) × (entries_reply
          (thread c e.thread
            (push
              (sqlite_store c)
              parse_time
              now
              principal
              (record { thread = t; entries = e ∷ [] })
              s).1).0
        ≡ ok es)
      × (es ≡ l.entries ++ e ∷ [])
      × (has (fold parse_time e.thread es).stewards p ≡ true)
push-plants c parse_time now principal t e s x l b p inv absent id author found opens lane kind body
      named =
    (
      l.entries ++ e ∷ [],
      push-entries c parse_time now principal t e s x l inv absent id author found opens,
      refl,
      rw (fold-last parse_time e.thread l.entries e lane refl) (
          thread_entry_makes_steward parse_time (fold parse_time e.thread l.entries) e b p kind body
            named),
    )
