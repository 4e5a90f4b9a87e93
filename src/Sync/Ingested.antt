-- ===== src/Sync/Ingested.antt =====
-- What the client takes from a peer's answer.
use lamdis.Prelude.{
  ℕ, String, ◌≡◌, ◌⊎◌, refl, true, false, Option, List, [], ◌∷◌, eqb, arith, Bool-cases, inl, inr,
}
use lamdis.Prelude.Sort.{insertion_sort}
use lamdis.Prelude.Lists.{All, length, keep}
use lamdis.Result.{Result, ok, lacks_contribute, err-ne-ok}
use lamdis.Exec.{Exec, pure, lift, continue-eq-ok, ◌>>◌}
use lamdis.Store.{Store}
use lamdis.Log.Entry.{Entry}
use lamdis.Log.ThreadLog.{ThreadLog}
use lamdis.Perm.Apply.{fold}
use lamdis.Perm.Query.{may_contribute}
use lamdis.Perm.State.{Time, State}
use lamdis.Sync.Order.{order_for_append}
use lamdis.Sync.Client.{is_control, is_other, check_authors, ingest_control, ingest_others, ingest}

non_empty : (e : Entry) (es : List Entry) → eqb (length (e ∷ es)) 0 ≡ false
non_empty e es = ground arith

-- the author's contribute window holds the entry
abbrev pub IsAuthorized : State → Entry → Type 0
IsAuthorized st e = may_contribute st e.author e.lamport ≡ true

check_authors-IsAuthorized :
    (st : State) (es : List Entry) → check_authors st es ≡ ok tt → All (IsAuthorized st) es
unfolding check_authors
check_authors-IsAuthorized st [] h = tt
check_authors-IsAuthorized st (e ∷ es) h =
    elim (Bool-cases (may_contribute st e.author e.lamport)) [
      | inl q ↦ (q, check_authors-IsAuthorized st es (rw (q, check_authors) at h))
      | inr q ↦ absurd (err-ne-ok lacks_contribute tt (rw (q, check_authors) at h))
    ]

module _ {S : Type 0} (store : Store S) (parse_time : String → Option Time) (thread : String) where
  -- The batch is empty, or the store holds the thread, and by the permissions folded from its log
  -- every entry of the batch is inside the contribute window of its author.
  abbrev pub IsAdmitted : List Entry → S → Type 0
  IsAdmitted es s =
      (es ≡ [])
      ⊎ ((tl : ThreadLog) × ((store.thread thread s).0 ≡ ok tl)
          × All (IsAuthorized (fold parse_time thread tl.entries)) es)

  ingest_others-IsAdmitted :
      (es : List Entry) (s : S)
      → (ingest_others store parse_time thread es s).0 ≡ ok tt
      → IsAdmitted es s
  unfolding ingest_others
  ingest_others-IsAdmitted [] s h = inl refl
  ingest_others-IsAdmitted (e ∷ es) s h =
      let (tl, found, h1) =
        continue-eq-ok (store.thread thread s).0 rest (store.thread thread s).1
          (rw (non_empty e es) at h) in
      let (u, passed, h2) =
        continue-eq-ok (check_authors (fold parse_time thread tl.entries) (e ∷ es))
          (λ _. store.append_entries (e ∷ es)) (store.thread thread s).1 h1 in
      inr (tl, found, check_authors-IsAuthorized _ (e ∷ es) passed)
    where
      rest : ThreadLog → Exec S (Unit {0})
      rest tl =
          lift (check_authors (fold parse_time thread tl.entries) (e ∷ es))
          >> store.append_entries (e ∷ es)

  -- If SyncThread takes in the entries of an answer, its control entries were appended first, and
  -- then every other entry was inside the contribute window of its author by the permissions folded
  -- from the log of the thread at that time.
  pub ingest-IsAdmitted :
      (entries : List Entry) (s : S) (n : ℕ)
      → (ingest store parse_time thread entries s).0 ≡ ok n
      → IsAdmitted
          (keep is_other (order_for_append entries thread))
          (ingest_control store parse_time (keep is_control (order_for_append entries thread)) s).1
  unfolding ingest
  ingest-IsAdmitted [] s n h = inl (unfold order_for_append insertion_sort keep in refl)
  ingest-IsAdmitted (e ∷ es) s n h =
      let (u, stored, h1) =
        continue-eq-ok (ingest_control store parse_time (keep is_control (ordered)) s).0
          (λ _.
            ingest_others store parse_time thread (keep is_other ordered) >> pure (length ordered))
          (ingest_control store parse_time (keep is_control ordered) s).1
          (rw (non_empty e es) at h) in
      let (v, taken, h2) =
        continue-eq-ok
          (ingest_others store parse_time thread (keep is_other ordered)
            (ingest_control store parse_time (keep is_control ordered) s).1).0
          (λ _. pure {S = S} (length ordered)) _ h1 in
      ingest_others-IsAdmitted (keep is_other ordered) _ taken
    where
      ordered : List Entry
      ordered = order_for_append (e ∷ es) thread
