-- ===== src/Sync/Pulled.antt =====
-- What Pull sends: only entries of the lanes that the caller may replicate.
use lamdis.Prelude.{
  ℕ, suc, ◌≤◌, String, ◌≡◌, refl, subst, true, Option, List, [], ◌∷◌, eqb, arith, if_ind,
  Bool-cases, inl, inr,
}
use lamdis.Prelude.Lists.{All, All-append, length}
use lamdis.Prelude.Map.{Map, empty}
use lamdis.Result.{ok, err, thread_not_found}
use lamdis.Exec.{pure, continue-eq-ok, ◌>>=◌}
use lamdis.Store.{Store}
use lamdis.Log.After.{IsAfter, after-All}
use lamdis.Log.ChainKey.{ChainKey}
use lamdis.Log.Entry.{Entry, Lane}
use lamdis.Log.ThreadLog.{ThreadLog, head_seqs, after}
use lamdis.Perm.Apply.{fold}
use lamdis.Perm.Query.{lanes}
use lamdis.Perm.State.{Time}
use lamdis.Sync.Server.{
  PullRequest, PullResponse, permits, seq_or_zero, have_map, collect, visible_lanes, pull_lanes,
  pull,
}

-- An entry of a response: it is of a permitted lane, and newer than what the caller reported for its
-- chain.
pub record MaySend (permitted : List Lane) (have : Map ChainKey ℕ) (e : Entry) : Type 0 where
  pub lane : permits permitted e.lane ≡ true
  pub newer :
      suc (seq_or_zero have (record { thread = e.thread; author = e.author; lane = e.lane }))
      ≤ e.seq

module _ (tl : ThreadLog) (permitted : List Lane) (have : Map ChainKey ℕ) where
  sent :
      (k : ChainKey) (es : List Entry)
      → permits permitted k.lane ≡ true
      → All (IsAfter k (seq_or_zero have k)) es
      → All (MaySend permitted have) es
  sent k [] h a = tt
  sent k (e ∷ es) h a = (
    record { lane = rw a.0.lane h; newer = rw (a.0.thread, a.0.author, a.0.lane) a.0.later },
    sent k es h a.1,
  )

  collect-MaySend :
      (heads : Map ChainKey ℕ) (resp : PullResponse)
      → All (MaySend permitted have) resp.entries
      → All (MaySend permitted have) (collect tl permitted have heads resp).entries
  unfolding collect
  collect-MaySend [] resp h = h
  collect-MaySend ((k, seq) ∷ rest) resp h = collect-MaySend rest _ (
      if_ind (λ (r : PullResponse). All (MaySend permitted have) r.entries)
        (permits permitted k.lane) _ resp
        (λ q.
          All-append (MaySend permitted have) resp.entries (after tl k (seq_or_zero have k)) h
            (sent k (after tl k (seq_or_zero have k)) q (after-All tl k (seq_or_zero have k))))
        (λ _. h))

module _ {S : Type 0} (store : Store S) (parse_time : String → Option Time) (now : Time)
    (principal : String) (req : PullRequest) (s : S) where
  -- the lanes that the log `tl` of the thread opens to the caller
  abbrev pub open_lanes : ThreadLog → List Lane
  open_lanes tl = lanes (fold parse_time req.thread tl.entries) principal now

  visible_lanes-eq-ok :
      (ls : List Lane)
      → (visible_lanes store parse_time now req.thread principal s).0 ≡ ok ls
      → (tl : ThreadLog) × ((store.thread req.thread s).0 ≡ ok tl) × (ls ≡ open_lanes tl)
  unfolding visible_lanes
  visible_lanes-eq-ok ls h =
      let (tl, found, e) =
        continue-eq-ok (store.thread req.thread s).0
          (λ (tl : ThreadLog). pure {S = S} (open_lanes tl)) (store.thread req.thread s).1 h in
      (tl, found, cc)

  pull_lanes-MaySend :
      (ls : List Lane) (t : S) (resp : PullResponse)
      → (pull_lanes store parse_time req ls t).0 ≡ ok resp
      → All (MaySend ls (have_map req.thread req.have empty)) resp.entries
  unfolding pull_lanes
  pull_lanes-MaySend ls t resp h = elim (Bool-cases (eqb (length ls) 0)) [
    | inl none_ ↦ absurd (ground (arith, none_, h))
    | inr some_ ↦
        let (tl, found, e) =
          continue-eq-ok (store.thread req.thread t).0
            (λ (tl : ThreadLog). pure {S = S} (answer tl)) (store.thread req.thread t).1
            (rw some_ at h) in
        subst
          (λ (r : PullResponse). All (MaySend ls (have_map req.thread req.have empty)) r.entries)
          (ok_inj e)
          (collect-MaySend tl ls (have_map req.thread req.have empty) (head_seqs tl.heads)
            (record { entries = []; heads = [] }) tt)
  ]
    where
      answer : ThreadLog → PullResponse
      answer tl =
          collect tl ls (have_map req.thread req.have empty) (head_seqs tl.heads)
            (record { entries = []; heads = [] })

      ok_inj : {a b : PullResponse} → ok a ≡ ok b → a ≡ b
      ok_inj e = cc

  -- If Pull answers, the thread is in the store, and every entry of the answer is of a lane that the
  -- caller may replicate by the permissions folded from the thread's log at that time, and newer than
  -- what the caller reported for its chain.
  pub pull-MaySend :
      (resp : PullResponse)
      → (pull store parse_time now principal req s).0 ≡ ok resp
      → (tl : ThreadLog) × ((store.thread req.thread s).0 ≡ ok tl)
        × All (MaySend (open_lanes tl) (have_map req.thread req.have empty)) resp.entries
  unfolding pull
  pull-MaySend resp h =
      let (ls, seen, e) =
        continue-eq-ok (visible_lanes store parse_time now req.thread principal s).0
          (pull_lanes store parse_time req)
          (visible_lanes store parse_time now req.thread principal s).1 h in
      let (tl, found, q) = visible_lanes-eq-ok ls seen in
      (
        tl,
        found,
        subst (λ l. All (MaySend l (have_map req.thread req.have empty)) resp.entries) q
            (pull_lanes-MaySend ls _ resp e),
      )

  -- A caller that may replicate no lane of a thread is told that there is no such thread.
  pub pull_hidden :
      (tl : ThreadLog)
      → (store.thread req.thread s).0 ≡ ok tl
      → open_lanes tl ≡ []
      → (pull store parse_time now principal req s).0 ≡ err thread_not_found
  unfolding pull visible_lanes pull_lanes
  pull_hidden tl found none_ = rw (found, ◌>>=◌) (rw none_ refl)
