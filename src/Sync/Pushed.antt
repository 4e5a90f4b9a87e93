-- ===== src/Sync/Pushed.antt =====
-- What Push asks of the entries that it admits.
use lamdis.Prelude.{
  ℕ, String, ◌≡◌, ◌≢◌, refl, true, ◌||◌, not, Option, List, [], ◌∷◌, eqb, arith, Bool-cases, inl,
  inr, ◌⊎◌,
}
use lamdis.Prelude.Eq.{◌==◌, string_eq}
use lamdis.Prelude.Lists.{All, length}
use lamdis.Prelude.Map.{has}
use lamdis.Prelude.SortLaws.{All-of_insertion_sort}
use lamdis.Result.{Error, Result, ok, err, Result-cases}
use lamdis.Exec.{Exec, pure, continue-eq-ok, ◌>>=◌, ◌>>◌}
use lamdis.Store.{Store}
use lamdis.Log.Entry.{Entry, Lane, lane_control, lane_summary, lane_content}
use lamdis.Log.ThreadLog.{ThreadLog}
use lamdis.Perm.Apply.{fold}
use lamdis.Perm.Query.{acts_for, may_contribute}
use lamdis.Perm.State.{Time, State}
use lamdis.Sync.Order.{less_append, order_for_append}
use lamdis.Sync.Server.{
  PushRequest, PushResponse, check_pushed, check_all, visible_lanes, push_checked, bootstrap,
  push_seen, push_on, push,
}

-- An entry that `principal` may push to the thread, by the permissions `st`.
pub record MayPush (st : State) (principal thread : String) (e : Entry) : Type 0 where
  pub in_thread : e.thread ≡ thread
  pub own : acts_for st e.author principal ≡ true
  pub control : e.lane ≡ lane_control → has st.stewards e.author ≡ true
  pub other : e.lane ≢ lane_control → may_contribute st e.author e.lamport ≡ true
  pub known_lane : (e.lane ≡ lane_control) ⊎ (e.lane ≡ lane_summary) ⊎ (e.lane ≡ lane_content)

module _ (st : State) (principal thread : String) where
  check_pushed-MayPush :
      (e : Entry) → check_pushed st principal thread e ≡ ok tt → MayPush st principal thread e
  unfolding check_pushed
  check_pushed-MayPush e h = record {
    in_thread = ground (arith, h, string_eq.beq_iff e.thread thread);
    own = ground (arith, h);
    control = λ l. ground (arith, h, l, string_eq.beq_iff e.lane lane_control);
    other = λ n. ground (arith, h, n, string_eq.beq_iff e.lane lane_control);
    known_lane = ground (
      arith,
      h,
      string_eq.beq_iff e.lane lane_control,
      string_eq.beq_iff e.lane lane_summary,
      string_eq.beq_iff e.lane lane_content,
    );
  }

  pub check_all-MayPush :
      (es : List Entry)
      → check_all st principal thread es ≡ ok tt
      → All (MayPush st principal thread) es
  unfolding check_all
  check_all-MayPush [] h = tt
  check_all-MayPush (e ∷ es) h = elim (Result-cases (check_pushed st principal thread e)) [
    | inl (u, q) ↦ (check_pushed-MayPush e q, check_all-MayPush es (rw (q, check_all) at h))
    | inr (x, q) ↦ absurd (ground (arith, q, h))
  ]

module _ {S : Type 0} (store : Store S) (parse_time : String → Option Time) (principal : String)
    (req : PushRequest) where
  abbrev state_of : ThreadLog → State
  state_of tl = fold parse_time req.thread tl.entries

  push_checked-MayPush :
      (total : ℕ) (tl : ThreadLog) (ordered : List Entry) (s : S) (resp : PushResponse)
      → (push_checked store parse_time principal req total tl ordered s).0 ≡ ok resp
      → All (MayPush (state_of tl) principal req.thread) ordered
  unfolding push_checked
  push_checked-MayPush total tl ordered s resp h =
      let (u, passed, e) =
        continue-eq-ok (check_all (state_of tl) principal req.thread ordered)
          (λ _. store.append_entries ordered >> pure (record { accepted = total })) s h in
      check_all-MayPush (state_of tl) principal req.thread ordered passed

  push_seen-MayPush :
      (ordered : List Entry) (tl : ThreadLog) (seen : Result (List Lane)) (s : S)
      (resp : PushResponse)
      → (push_seen store parse_time principal req ordered tl seen s).0 ≡ ok resp
      → All (MayPush (state_of tl) principal req.thread) ordered
  unfolding push_seen
  push_seen-MayPush ordered tl (err x) s resp h = cc
  push_seen-MayPush ordered tl (ok ls) s resp h = elim (Bool-cases (eqb (length ls) 0)) [
    | inl q ↦ absurd (ground (arith, q, h))
    | inr q ↦ push_checked-MayPush (length ordered) tl ordered s resp (rw q at h)
  ]

  -- If Push succeeds on a thread that the store holds, then every entry of the batch belongs to the
  -- thread, is the caller's own or of a key delegated to it, and is a steward's on the control lane,
  -- or of the summary or content lane and inside its author's contribute window, by the permissions
  -- that are folded from the thread's log before the push.
  pub push-MayPush :
      (now : Time) (s : S) (tl : ThreadLog) (resp : PushResponse)
      → (store.thread req.thread s).0 ≡ ok tl
      → (push store parse_time now principal req s).0 ≡ ok resp
      → All (MayPush (state_of tl) principal req.thread) req.entries
  unfolding push push_on order_for_append
  push-MayPush now s tl resp found h =
      All-of_insertion_sort (MayPush (state_of tl) principal req.thread) (less_append req.thread)
        req.entries
        (push_seen-MayPush (order_for_append req.entries req.thread) tl (seen s).0 (seen s).1 resp
          (rw (found, push_on) at h))
    where
      seen : S → Result (List Lane) × S
      seen t = visible_lanes store parse_time now req.thread principal (store.thread req.thread t).1

  -- what Push asks of the first entry of a batch to an unknown thread
  pub record IsOpening (e : Entry) : Type 0 where
    pub id : e.id ≡ req.thread
    pub author : e.author ≡ principal

  bootstrap-IsOpening :
      (total : ℕ) (ordered : List Entry) (s : S) (resp : PushResponse)
      → (bootstrap store parse_time principal req total ordered s).0 ≡ ok resp
      → (e : Entry) × (es : List Entry) × (tl : ThreadLog) × (ordered ≡ e ∷ es)
        × IsOpening e
        × ((store.thread req.thread (store.append_entries (e ∷ []) s).1).0 ≡ ok tl)
        × All (MayPush (state_of tl) principal req.thread) es
  unfolding bootstrap
  bootstrap-IsOpening total [] s resp h = cc
  bootstrap-IsOpening total (e ∷ es) s resp h =
      elim (Bool-cases (not (e.id == req.thread) || not (e.author == principal))) [
        | inl q ↦ absurd (ground (arith, q, h))
        | inr q ↦
            let (u, stored, h1) =
              continue-eq-ok (store.append_entries (e ∷ []) s).0
                (λ _. store.thread req.thread >>= rest) (store.append_entries (e ∷ []) s).1
                (rw q at h) in
            let (tl, found, h2) =
              continue-eq-ok (store.thread req.thread (store.append_entries (e ∷ []) s).1).0 rest
                (store.thread req.thread (store.append_entries (e ∷ []) s).1).1 h1 in
            (
              e,
              es,
              tl,
              refl,
              record {
                id = ground (arith, q, string_eq.beq_iff e.id req.thread);
                author = ground (arith, q, string_eq.beq_iff e.author principal);
              },
              found,
              push_checked-MayPush total tl es _ resp h2,
            )
      ]
    where
      rest : ThreadLog → Exec S PushResponse
      rest tl = push_checked store parse_time principal req total tl es

  -- If Push succeeds on a thread that the store does not hold, then the batch, in its order, starts
  -- with an entry whose id is the thread's and whose author is the caller, the store answers for the
  -- thread once it has been handed that entry alone, and the other entries of the batch pass the
  -- checks of Push by the permissions folded from what it answers. The kind of the first entry and
  -- the thread that it names are not looked at, nor is it said that the store files it under this one.
  pub push-IsOpening :
      (now : Time) (s : S) (x : Error) (resp : PushResponse)
      → (store.thread req.thread s).0 ≡ err x
      → (push store parse_time now principal req s).0 ≡ ok resp
      → (e : Entry) × (es : List Entry) × (tl : ThreadLog) × (order_for_append req.entries
            req.thread
          ≡ e ∷ es)
        × IsOpening e
        × ((store.thread req.thread
              (store.append_entries (e ∷ []) (store.thread req.thread s).1).1).0
            ≡ ok tl)
        × All (MayPush (state_of tl) principal req.thread) es
  unfolding push push_on
  push-IsOpening now s x resp absent h =
      bootstrap-IsOpening _ (order_for_append req.entries req.thread) (store.thread req.thread s).1
        resp (rw (absent, push_on) at h)
