-- ===== src/Perm/Clock.antt =====
-- The permissions date nothing after the log's clock.
use lamdis.Prelude.{ℕ, ◌≤◌, String, Option, List, arith, inl, inr, Option-cases}
use lamdis.Prelude.Eq.{string_eq}
use lamdis.Prelude.Lists.{All}
use lamdis.Prelude.Map.{lookup, lookup-insert}
use lamdis.Json.Bodies.{decode_grant}
use lamdis.Log.Entry.{Entry}
use lamdis.Perm.Apply.{
  apply_thread, apply_membership, apply_delegation, apply_access_request, apply_deny, apply_grant,
  grant_of, write_grant, change_member, change_delegation, last_denied, fold,
}
use lamdis.Perm.Cases.{apply_ind, fold_from_ind}
use lamdis.Perm.State.{Time, State, new_state}

-- nobody was denied after `bound`
abbrev pub NotDeniedAfter : ℕ → State → Type 0
NotDeniedAfter bound st = (p : String) → last_denied st p ≤ bound

module _ (bound : ℕ) (st : State) (e : Entry) (h : NotDeniedAfter bound st)
    (early : e.lamport ≤ bound) where
  apply_thread-NotDeniedAfter : NotDeniedAfter bound (apply_thread st e)
  unfolding apply_thread last_denied
  apply_thread-NotDeniedAfter p = ground (arith, h p)

  apply_membership-NotDeniedAfter : NotDeniedAfter bound (apply_membership st e)
  unfolding apply_membership change_member last_denied
  apply_membership-NotDeniedAfter p = ground (arith, h p)

  apply_delegation-NotDeniedAfter : NotDeniedAfter bound (apply_delegation st e)
  unfolding apply_delegation change_delegation last_denied
  apply_delegation-NotDeniedAfter p = ground (arith, h p)

  apply_access_request-NotDeniedAfter : NotDeniedAfter bound (apply_access_request st e)
  unfolding apply_access_request last_denied
  apply_access_request-NotDeniedAfter p = ground (arith, h p)

  apply_deny-NotDeniedAfter : NotDeniedAfter bound (apply_deny st e)
  unfolding apply_deny last_denied
  apply_deny-NotDeniedAfter p = elim (Option-cases (decode_grant e.body)) [
    | inl n ↦ ground (arith, n, h p)
    | inr (b, q) ↦ ground (arith, q, h p, early, lookup-insert b.principal p e.lamport st.denied_at)
  ]

  apply_grant-NotDeniedAfter :
      (parse_time : String → Option Time) → NotDeniedAfter bound (apply_grant parse_time st e)
  unfolding apply_grant grant_of write_grant last_denied
  apply_grant-NotDeniedAfter parse_time p = ground (arith, h p)

pub fold-NotDeniedAfter :
    (parse_time : String → Option Time) (thread : String) (bound : ℕ) (es : List Entry)
    → All (λ e. e.lamport ≤ bound) es
    → NotDeniedAfter bound (fold parse_time thread es)
unfolding fold lookup
fold-NotDeniedAfter parse_time thread bound es a =
    fold_from_ind parse_time thread (NotDeniedAfter bound) (λ e. e.lamport ≤ bound)
      (λ st e h early.
        apply_ind parse_time (NotDeniedAfter bound) st e
          (λ _. apply_thread-NotDeniedAfter bound st e h early)
          (λ _. apply_membership-NotDeniedAfter bound st e h early)
          (λ _. apply_delegation-NotDeniedAfter bound st e h early)
          (λ _. apply_access_request-NotDeniedAfter bound st e h early)
          (λ _. apply_grant-NotDeniedAfter bound st e h early parse_time)
          (λ _. apply_deny-NotDeniedAfter bound st e h early) h)
      (new_state thread) es (λ p. unfold last_denied new_state in omega arith) a
