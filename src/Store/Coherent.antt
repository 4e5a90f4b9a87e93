-- ===== src/Store/Coherent.antt =====
-- The cache of the SQLite driver is coherent: every cached log is the log of the rows, and every thread has one.
use lamdis.Prelude.{
  ℕ, String, ◌≡◌, refl, sym, ap, ◌∙◌, subst, inl, inr, true, false, some, List, arith, Bool-cases,
  Option-cases,
}
use lamdis.Prelude.Eq.{◌==◌, string_eq, beq_refl}
use lamdis.Prelude.Lists.{In}
use lamdis.Prelude.Map.{lookup, insert, lookup-insert, empty}
use lamdis.Prelude.Sort.{insertion_sort}
use lamdis.Result.{ok}
use lamdis.Log.Crypto.{Crypto}
use lamdis.Log.Entry.{Entry}
use lamdis.Log.Invariant.{IsChained}
use lamdis.Log.ThreadLog.{ThreadLog, new_thread_log}
use lamdis.Log.Appended.{new_thread_log-IsChained}
use lamdis.Store.Sqlite.{
  Row, CachedLog, Sqlite, new_sqlite, max_rid, entries_of, chain_less, load_from, rehydrate,
  thread_log, put_log,
}
use lamdis.Store.Rebuilt.{load_from-rebuilds}

-- `l` is a log of the thread's rows.
pub record IsLogOf (c : Crypto) (rows : List Row) (thread : String) (l : ThreadLog) : Type 0 where
  pub named : l.thread ≡ thread
  pub chained : IsChained c l
  pub from : (e : Entry) → In e l.entries → In e (entries_of thread rows)
  pub into : (e : Entry) → In e (entries_of thread rows) → In e l.entries

-- the rows of every thread make a log
abbrev pub HasLogs : Crypto → List Row → Type 0
HasLogs c rows = (thread : String) → (l : ThreadLog) × IsLogOf c rows thread l

pub record IsCoherent (c : Crypto) (s : Sqlite) : Type 0 where
  pub logged : HasLogs c s.rows
  -- a cached log is the log of the thread's rows, as of its last row
  pub cached :
      (thread : String) (cl : CachedLog)
      → lookup thread s.logs ≡ some cl
      → IsLogOf c s.rows thread cl.log × (cl.max_rid ≡ max_rid thread s.rows)

-- the process ends and another opens the file
unfoldable pub restart : Sqlite → Sqlite
restart s = record s { logs = empty }

pub restart-HasLogs : (c : Crypto) (s : Sqlite) → HasLogs c s.rows → IsCoherent c (restart s)
unfolding restart lookup
restart-HasLogs c s logged = record { logged = logged; cached = λ t cl h. cc }

pub restart-IsCoherent : (c : Crypto) (s : Sqlite) → IsCoherent c s → IsCoherent c (restart s)
restart-IsCoherent c s inv = restart-HasLogs c s inv.logged

pub new_sqlite-IsCoherent : (c : Crypto) → IsCoherent c new_sqlite
unfolding lookup entries_of
new_sqlite-IsCoherent c = record {
  logged = λ t. (
    new_thread_log t,
    record {
      named = unfold new_thread_log in refl;
      chained = new_thread_log-IsChained c t;
      from = unfold new_thread_log in λ e i. i;
      into = unfold new_thread_log in λ e i. i;
    },
  );
  cached = λ t cl h. cc;
}

-- IsLogOf reads the rows of its thread only.
pub IsLogOf-subst :
    (c : Crypto) (rows rows' : List Row) (thread : String) (l : ThreadLog)
    → entries_of thread rows' ≡ entries_of thread rows
    → IsLogOf c rows thread l
    → IsLogOf c rows' thread l
IsLogOf-subst c rows rows' thread l q r = record {
  named = r.named;
  chained = r.chained;
  from = λ e i. subst (In e) (sym q) (r.from e i);
  into = λ e i. r.into e (subst (In e) q i);
}

-- what threadLog leaves: the log, cached as of the thread's last row
pub record IsOpened (c : Crypto) (s : Sqlite) (thread : String) (l : ThreadLog) (s1 : Sqlite)
    : Type 0 where
  pub returned : thread_log c thread s ≡ (ok l, s1)
  pub rows : s1.rows ≡ s.rows
  pub faults : s1.write_fails ≡ s.write_fails
  pub log : IsLogOf c s1.rows thread l
  pub kept : lookup thread s1.logs ≡ some (record { log = l; max_rid = max_rid thread s1.rows })
  pub coherent : IsCoherent c s1

-- A log of the rows that is put in the cache with the last rid keeps it coherent.
pub put_log-IsCoherent :
    (c : Crypto) (s : Sqlite) (thread : String) (l : ThreadLog)
    → IsCoherent c s
    → IsLogOf c s.rows thread l
    → IsCoherent c (put_log thread l (max_rid thread s.rows) s)
unfolding put_log
put_log-IsCoherent c s thread l inv r = record {
  logged = inv.logged;
  cached = λ t cl h. elim (Bool-cases (thread == t)) [
    | inl q ↦
        let same : thread ≡ t = (string_eq.beq_iff thread t).0 q in
        let at : record { log = l; max_rid = max_rid thread s.rows } ≡ cl = put_log_at t cl q h in
        (
          subst (λ (x : String). IsLogOf c s.rows x cl.log) same
              (subst (λ (x : CachedLog). IsLogOf c s.rows thread x.log) at r),
          ap (λ (x : CachedLog). x.max_rid) (sym at) ∙ ap (λ (x : String). max_rid x s.rows) same,
        )
    | inr q ↦ inv.cached t cl (put_log_off t cl q h)
  ];
}
  where
    put_log_at :
        (t : String) (cl : CachedLog)
        → (thread == t) ≡ true
        → lookup t (insert thread (record { log = l; max_rid = max_rid thread s.rows }) s.logs)
          ≡ some cl
        → record { log = l; max_rid = max_rid thread s.rows } ≡ cl
    put_log_at t cl q h = some_lem (rw (lookup-insert, q) at h)
      where
        some_lem : {x y : CachedLog} → some x ≡ some y → x ≡ y
        some_lem h = cc

    put_log_off :
        (t : String) (cl : CachedLog)
        → (thread == t) ≡ false
        → lookup t (insert thread (record { log = l; max_rid = max_rid thread s.rows }) s.logs)
          ≡ some cl
        → lookup t s.logs ≡ some cl
    put_log_off t cl q h = rw (lookup-insert, q) at h

rehydrate-IsOpened :
    (c : Crypto) (s : Sqlite) (thread : String)
    → IsCoherent c s
    → thread_log c thread s ≡ rehydrate c thread s
    → (l : ThreadLog) × (s1 : Sqlite) × IsOpened c s thread l s1
unfolding rehydrate
rehydrate-IsOpened c s thread inv h =
    let (l0, r) = inv.logged thread in
    let (m, run, chained, named, same) =
      load_from-rebuilds c l0 r.chained (entries_of thread s.rows) r.into r.from in
    let loaded : load_from c (new_thread_log thread)
          (insertion_sort chain_less (entries_of thread s.rows))
        ≡ ok m =
      subst
        (λ (x : String).
          load_from c (new_thread_log x) (insertion_sort chain_less (entries_of thread s.rows))
          ≡ ok m)
        r.named run in
    let log : IsLogOf c s.rows thread m = record {
      named = named ∙ r.named;
      chained = chained;
      from = λ e i. r.from e (same.from e i);
      into = λ e i. same.into e (r.into e i);
    } in
    (
      m,
      put_log thread m (max_rid thread s.rows) s,
      record {
        returned = h ∙ rw (loaded, rehydrate) refl;
        rows = unfold put_log in refl;
        faults = unfold put_log in refl;
        log = unfold put_log in log;
        kept = unfold put_log in (rw (lookup-insert, beq_refl {K = String} thread) refl);
        coherent = put_log-IsCoherent c s thread m inv log;
      },
    )

-- threadLog does not fail on a coherent state
pub thread_log-IsOpened :
    (c : Crypto) (s : Sqlite) (thread : String)
    → IsCoherent c s
    → (l : ThreadLog) × (s1 : Sqlite) × IsOpened c s thread l s1
unfolding thread_log
thread_log-IsOpened c s thread inv = elim (Option-cases (lookup thread s.logs)) [
  | inl q ↦ rehydrate-IsOpened c s thread inv (rw (q, thread_log) refl)
  | inr (cl, q) ↦
      let (log, rid) = inv.cached thread cl q in
      (
        cl.log,
        s,
        record {
          returned = rw (q, thread_log) (ground (arith, rid));
          rows = refl;
          faults = refl;
          log = log;
          kept = q ∙ ap (λ (n : ℕ). some (record { log = cl.log; max_rid = n })) rid;
          coherent = inv;
        },
      )
]
