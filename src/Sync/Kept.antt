-- ===== src/Sync/Kept.antt =====
-- A push over the SQLite driver: what was accepted is there after a restart.
use lamdis.Prelude.{
  ◌<◌, String, ◌≡◌, refl, sym, ap, ◌∙◌, subst, Option, List, eqb, inl, inr, Bool-cases, u64_mod, ℕ,
  arith,
}
use lamdis.Prelude.Lists.{In, All, All-In, length}
use lamdis.Prelude.SortLaws.{insertion_sort-All, In-insertion_sort, of_insertion_sort}
use lamdis.Result.{Result, ok, err}
use lamdis.Exec.{pure, lift, continue, continue-eq-ok, ◌>>=◌, ◌>>◌}
use lamdis.Log.Crypto.{Crypto}
use lamdis.Log.Entry.{Entry, Lane}
use lamdis.Log.ThreadLog.{ThreadLog}
use lamdis.Perm.Apply.{fold}
use lamdis.Perm.State.{Time, State}
use lamdis.Store.Sqlite.{Row, Sqlite, append_entries, thread, sqlite_store}
use lamdis.Store.Coherent.{IsCoherent, thread_log-IsOpened, restart}
use lamdis.Store.Batches.{OwnIds, append_entries-IsBatch, IsCoherent-after}
use lamdis.Store.Restarted.{IsServed, IsStored-IsServed, entries_reply, thread-cases}
use lamdis.Sync.Order.{less_append, order_for_append}
use lamdis.Sync.Pushed.{MayPush, check_all-MayPush}
use lamdis.Sync.Server.{
  PushRequest, PushResponse, check_all, push_checked, push_seen, push_on, visible_lanes, push,
}

-- Thread changes the cache alone, and keeps it coherent.
pub record IsRead (c : Crypto) (s s1 : Sqlite) : Type 0 where
  pub coherent : IsCoherent c s1
  pub rows : s1.rows ≡ s.rows

thread-IsRead :
    (c : Crypto) (s : Sqlite) (t : String) → IsCoherent c s → IsRead c s (thread c t s).1
thread-IsRead c s t inv =
    let (m, s1, o) = thread_log-IsOpened c s t inv in
    let read : IsRead c s s1 = record { coherent = o.coherent; rows = o.rows } in
    elim (thread-cases c s s1 t m o) [
      | inl q ↦ subst (IsRead c s) (ap (λ (r : Result ThreadLog × Sqlite). r.1) (sym q)) read
      | inr q ↦ subst (IsRead c s) (ap (λ (r : Result ThreadLog × Sqlite). r.1) (sym q)) read
    ]

continue-state :
    {A B : Type 0} (r : Result A) (f : A → B) (s : Sqlite)
    → (continue {S = Sqlite} r (λ a. pure {S = Sqlite} (f a)) s).1 ≡ s
continue-state (ok a) f s = refl
continue-state (err x) f s = refl

module _ (c : Crypto) (parse_time : String → Option Time) (now : Time) (principal : String)
    (req : PushRequest) where
  visible_lanes-IsRead :
      (s : Sqlite) (t : String)
      → IsCoherent c s
      → IsRead c s (visible_lanes (sqlite_store c) parse_time now t principal s).1
  unfolding visible_lanes
  visible_lanes-IsRead s t inv =
      subst (IsRead c s) (sym (continue-state (thread c t s).0 _ (thread c t s).1))
        (thread-IsRead c s t inv)

  sorted_small :
      All (λ (e : Entry). e.seq < u64_mod) req.entries
      → All (λ (e : Entry). e.seq < u64_mod) (order_for_append req.entries req.thread)
  unfolding order_for_append
  sorted_small h =
      insertion_sort-All (λ (e : Entry). e.seq < u64_mod) (less_append req.thread) req.entries h

  abbrev ordered : List Entry
  ordered = order_for_append req.entries req.thread

  -- every id of the batch that is in the table is of the thread
  abbrev Ids : Sqlite → Type 0
  Ids s =
      (e : Entry)
      → In e req.entries
      → (r : Row) → In r s.rows
      → r.entry.id ≡ e.id
      → r.entry.thread ≡ req.thread

  ordered-OwnIds :
      (s : Sqlite) (st : State)
      → Ids s
      → All (MayPush st principal req.thread) ordered
      → OwnIds ordered s.rows
  unfolding order_for_append
  ordered-OwnIds s st ids may =
      let at : (e : Entry) → In e ordered → e.thread ≡ req.thread =
        λ e i. (All-In (MayPush st principal req.thread) e ordered may i).in_thread in
      record {
        batch = λ a b i j q. at a i ∙ sym (at b j);
        table = λ e i r j q.
            ids e (of_insertion_sort (less_append req.thread) e req.entries i) r j q ∙ sym (at e i);
      }

  push_checked-IsServed :
      (total : ℕ) (tl : ThreadLog) (s : Sqlite) (resp : PushResponse)
      → IsCoherent c s
      → All (λ (e : Entry). e.seq < u64_mod) req.entries
      → Ids s
      → (push_checked (sqlite_store c) parse_time principal req total tl ordered s).0 ≡ ok resp
      → (e : Entry) → In e ordered
      → IsServed c e (
          entries_reply
            (thread c req.thread (
              restart
                (push_checked (sqlite_store c) parse_time principal req total tl ordered s).1)).0)
  unfolding push_checked
  push_checked-IsServed total tl s resp inv small ids h e i =
      let st = fold parse_time req.thread tl.entries in
      let (u, passed, h1) =
        continue-eq-ok (check_all st principal req.thread ordered)
          (λ _. append_entries c ordered >> pure (record { accepted = total })) s h in
      let (v, done, h2) =
        continue-eq-ok (append_entries c ordered s).0
          (λ _. pure {S = Sqlite} (record { accepted = total })) (append_entries c ordered s).1
          h1 in
      let may = check_all-MayPush st principal req.thread ordered passed in
      let batch =
        append_entries-IsBatch c ordered s inv (sorted_small small) (ordered-OwnIds s st ids may) in
      let last : (push_checked (sqlite_store c) parse_time principal req total tl ordered s).1
          ≡ (append_entries c ordered s).1 =
        rw (push_checked, ◌>>=◌, ◌>>◌, lift, passed, done, pure) refl in
      subst (λ (z : Sqlite). IsServed c e (entries_reply (thread c req.thread (restart z)).0))
        (sym last)
        (subst
          (λ (t : String).
            IsServed c e (entries_reply (thread c t (restart (append_entries c ordered s).1)).0))
          (All-In (MayPush st principal req.thread) e ordered may i).in_thread
          (IsStored-IsServed c (append_entries c ordered s).1 e
            (IsCoherent-after batch.coherent done) (batch.stored done e i)))

  push_seen-IsServed :
      (tl : ThreadLog) (seen : Result (List Lane)) (s : Sqlite) (resp : PushResponse)
      → IsCoherent c s
      → All (λ (e : Entry). e.seq < u64_mod) req.entries
      → Ids s
      → (push_seen (sqlite_store c) parse_time principal req ordered tl seen s).0 ≡ ok resp
      → (e : Entry) → In e ordered
      → IsServed c e (
          entries_reply
            (thread c req.thread (
              restart (push_seen (sqlite_store c) parse_time principal req ordered tl seen s).1)).0)
  unfolding push_seen
  push_seen-IsServed tl (err x) s resp inv small ids h e i = cc
  push_seen-IsServed tl (ok ls) s resp inv small ids h e i = elim (Bool-cases (eqb (length ls) 0)) [
    | inl q ↦ absurd (ground (arith, q, h))
    | inr q ↦ rw q (push_checked-IsServed (length ordered) tl s resp inv small ids (rw q at h) e i)
  ]

  -- If every cached log of the driver is the log of its thread's rows, the thread is held, and Push
  -- succeeds on a batch of entries with numbers below 2^64 whose ids no row of another thread has,
  -- then after a restart Thread answers, for each entry of the batch, with entries of which one has
  -- its id and its hash.
  pub push-IsServed :
      (s : Sqlite) (tl : ThreadLog) (resp : PushResponse)
      → IsCoherent c s
      → All (λ (e : Entry). e.seq < u64_mod) req.entries
      → ((e : Entry)
          → In e req.entries
          → (r : Row) → In r s.rows
          → r.entry.id ≡ e.id
          → r.entry.thread ≡ req.thread)
      → (thread c req.thread s).0 ≡ ok tl
      → (push (sqlite_store c) parse_time now principal req s).0 ≡ ok resp
      → (e : Entry) → In e req.entries
      → IsServed c e (
          entries_reply
            (thread c req.thread
              (restart (push (sqlite_store c) parse_time now principal req s).1)).0)
  unfolding push push_on order_for_append
  push-IsServed s tl resp inv small ids found h e i =
      let read = thread-IsRead c s req.thread inv in
      let lanes = visible_lanes-IsRead (thread c req.thread s).1 req.thread read.coherent in
      rw (found, push_on)
        (push_seen-IsServed tl (seen (thread c req.thread s).1).0 (seen (thread c req.thread s).1).1
          resp lanes.coherent small
          (λ x j r k q. ids x j r (subst (In r) (lanes.rows ∙ read.rows) k) q)
          (rw (found, push_on) at h) e (In-insertion_sort (less_append req.thread) e req.entries i))
    where
      seen : Sqlite → Result (List Lane) × Sqlite
      seen z = visible_lanes (sqlite_store c) parse_time now req.thread principal z
