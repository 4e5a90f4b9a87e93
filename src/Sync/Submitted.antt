-- ===== src/Sync/Submitted.antt =====
-- What SubmitAccessRequest admits: the one control entry that an outsider may write.
use lamdis.Prelude.{
  String, ◌≡◌, true, false, ◌&&◌, ◌||◌, not, Option, [], ◌∷◌, eqb, arith, Bool-cases, inl, inr,
}
use lamdis.Prelude.Eq.{◌==◌, string_eq}
use lamdis.Prelude.Lists.{length}
use lamdis.Result.{
  ok, thread_not_found, only_access_requests, not_the_author, Result-cases, err-ne-ok,
}
use lamdis.Store.{Store}
use lamdis.Log.Entry.{Entry, lane_control, kind_access_request}
use lamdis.Log.ThreadLog.{ThreadLog}
use lamdis.Perm.Apply.{fold}
use lamdis.Perm.Query.{lanes, acts_for}
use lamdis.Perm.State.{Time, State}
use lamdis.Sync.Server.{submit_to, submit_found, submit_access_request}

-- A request that the server takes: of a thread that the caller can see or ask for, of the one kind
-- and lane, and the caller's own.
pub record MaySubmit (st : State) (now : Time) (principal : String) (e : Entry) : Type 0 where
  pub visible : (not st.discoverable && eqb (length (lanes st principal now)) 0) ≡ false
  pub kind : e.kind ≡ kind_access_request
  pub lane : e.lane ≡ lane_control
  pub own : acts_for st e.author principal ≡ true

module _ {S : Type 0} (store : Store S) (parse_time : String → Option Time) (now : Time)
    (principal : String) (e : Entry) where
  submit_to-MaySubmit :
      (tl : ThreadLog) (s : S)
      → (submit_to store parse_time now principal e tl s).0 ≡ ok tt
      → MaySubmit (fold parse_time e.thread tl.entries) now principal e
        × ((store.append_entries (e ∷ []) s).0 ≡ ok tt)
  unfolding submit_to
  submit_to-MaySubmit tl s h =
      let st : State = fold parse_time e.thread tl.entries in
      elim (Bool-cases (not st.discoverable && eqb (length (lanes st principal now)) 0)) [
        | inl q ↦ absurd (err-ne-ok thread_not_found tt (rw q at h))
        | inr seen ↦
            elim (Bool-cases
              (not (e.kind == kind_access_request) || not (e.lane == lane_control))) [
                | inl q ↦ absurd (err-ne-ok only_access_requests tt (rw (seen, q) at h))
                | inr request ↦ elim (Bool-cases (not (acts_for st e.author principal))) [
                  | inl q ↦ absurd (err-ne-ok not_the_author tt (rw (seen, request, q) at h))
                  | inr own ↦ (
                    record {
                      visible = seen;
                      kind = ground (arith, request, string_eq.beq_iff e.kind kind_access_request);
                      lane = ground (arith, request, string_eq.beq_iff e.lane lane_control);
                      own = ground (arith, own);
                    },
                    rw (seen, request, own) at h,
                  )
                ]
              ]
      ]

  -- If SubmitAccessRequest succeeds, the store holds the thread, the thread is discoverable or open to
  -- the caller, the entry is a core.access_request on the control lane of the caller or of a key
  -- delegated to it, and the store has admitted it.
  pub submit_access_request-MaySubmit :
      (s : S)
      → (submit_access_request store parse_time now principal e s).0 ≡ ok tt
      → (tl : ThreadLog) × ((store.thread e.thread s).0 ≡ ok tl)
        × MaySubmit (fold parse_time e.thread tl.entries) now principal e
        × ((store.append_entries (e ∷ []) (store.thread e.thread s).1).0 ≡ ok tt)
  unfolding submit_access_request
  submit_access_request-MaySubmit s h = elim (Result-cases (store.thread e.thread s).0) [
    | inr (x, q) ↦ absurd (err-ne-ok thread_not_found tt (rw (q, submit_found) at h))
    | inl (tl, q) ↦
        let (may, stored) =
          submit_to-MaySubmit tl (store.thread e.thread s).1 (rw (q, submit_found) at h) in
        (tl, q, may, stored)
  ]
