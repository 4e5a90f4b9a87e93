-- ===== src/Perm/Denied.antt =====
-- A deny or revoke in the fold: what it closes stays closed under every entry that is not later.
use lamdis.Prelude.{
  ℕ, ◌≤◌, String, ◌≡◌, ◌≢◌, inl, inr, true, Option, none, some, List, arith, Bool-cases,
  Option-cases,
}
use lamdis.Prelude.Eq.{◌==◌, string_eq}
use lamdis.Prelude.Map.{empty, lookup, lookup-insert, lookup-delete}
use lamdis.Prelude.Lists.{All}
use lamdis.Json.Bodies.{GrantBody, decode_grant, decode_membership}
use lamdis.Log.Entry.{Entry, kind_grant}
use lamdis.Perm.Scope.{granted_scopes}
use lamdis.Perm.State.{Time, State}
use lamdis.Perm.Cases.{apply_ind, fold_from_ind}
use lamdis.Perm.Apply.{
  may_decide, person_signed, apply_thread, apply_membership, apply_delegation, apply_access_request,
  apply_deny, apply_grant, grant_of, write_grant, change_member, last_denied, apply, fold_from,
  change_delegation,
}

-- `p` holds no grant, and was denied at `bound` or later.
pub record IsDenied (p : String) (bound : ℕ) (st : State) : Type 0 where
  pub no_grant : lookup p st.grants ≡ none
  pub since : bound ≤ last_denied st p

module _ (p : String) (bound : ℕ) (st : State) (e : Entry) (d : IsDenied p bound st) where
  apply_thread-IsDenied : IsDenied p bound (apply_thread st e)
  unfolding apply_thread last_denied
  apply_thread-IsDenied = record {
    no_grant = ground (arith, d.no_grant);
    since = ground (arith, d.since);
  }

  apply_membership-IsDenied : IsDenied p bound (apply_membership st e)
  unfolding apply_membership change_member last_denied
  apply_membership-IsDenied = elim (Option-cases (decode_membership e.body)) [
    | inl n ↦ record {
      no_grant = ground (arith, n, d.no_grant);
      since = ground (arith, n, d.since);
    }
    | inr (b, q) ↦ record {
      no_grant = ground (arith, q, d.no_grant, lookup-delete b.member p st.grants);
      since = ground (arith, q, d.since);
    }
  ]

  apply_delegation-IsDenied : IsDenied p bound (apply_delegation st e)
  unfolding apply_delegation change_delegation last_denied
  apply_delegation-IsDenied = record {
    no_grant = ground (arith, d.no_grant);
    since = ground (arith, d.since);
  }

  apply_access_request-IsDenied : IsDenied p bound (apply_access_request st e)
  unfolding apply_access_request last_denied
  apply_access_request-IsDenied = record {
    no_grant = ground (arith, d.no_grant);
    since = ground (arith, d.since);
  }

  apply_deny-IsDenied : IsDenied p bound (apply_deny st e)
  unfolding apply_deny last_denied
  apply_deny-IsDenied = elim (Option-cases (decode_grant e.body)) [
    | inl n ↦ record {
      no_grant = ground (arith, n, d.no_grant);
      since = ground (arith, n, d.since);
    }
    | inr (b, q) ↦ record {
      no_grant = ground (arith, q, d.no_grant, lookup-delete b.principal p st.grants);
      since = ground (
        arith,
        q,
        d.since,
        lookup-insert b.principal p e.lamport st.denied_at,
        string_eq.beq_iff b.principal p,
      );
    }
  ]

-- An entry that is no grant to `p` later than `bound`.
abbrev pub NoLaterGrant : String → ℕ → Entry → Type 0
NoLaterGrant p bound e =
    e.kind ≡ kind_grant
    → (b : GrantBody) → decode_grant e.body ≡ some b
    → b.principal ≡ p
    → e.lamport ≤ bound

module _ (parse_time : String → Option Time) (p : String) (bound : ℕ) where
  grant_of-IsDenied :
      (st : State) (e : Entry) (b : GrantBody)
      → IsDenied p bound st
      → (b.principal ≡ p → e.lamport ≤ bound)
      → IsDenied p bound (grant_of parse_time st e (some b))
  unfolding grant_of write_grant last_denied
  grant_of-IsDenied st e b d early = elim (Bool-cases (b.principal == p)) [
    | inl same ↦
        let q : b.principal ≡ p = (string_eq.beq_iff b.principal p).0 same in
        record {
          no_grant = ground (arith, q, early q, d.no_grant, d.since);
          since = ground (arith, q, early q, d.since);
        }
    | inr other ↦ record {
      no_grant = ground (
        arith,
        other,
        d.no_grant,
        lookup-insert b.principal p (granted_scopes b.scopes empty) st.grants,
      );
      since = ground (arith, d.since);
    }
  ]

  apply_grant-IsDenied :
      (st : State) (e : Entry)
      → IsDenied p bound st
      → ((b : GrantBody) → decode_grant e.body ≡ some b → b.principal ≡ p → e.lamport ≤ bound)
      → IsDenied p bound (apply_grant parse_time st e)
  unfolding apply_grant
  apply_grant-IsDenied st e d early = elim (Bool-cases (may_decide st e)) [
    | inr shut ↦ rw shut d
    | inl open_ ↦ elim (Option-cases (decode_grant e.body)) [
      | inl n ↦ rw (open_, n) (unfold grant_of in d)
      | inr (b, q) ↦ rw (open_, q) (grant_of-IsDenied st e b d (early b q))
    ]
  ]

  pub apply-IsDenied :
      (st : State) (e : Entry)
      → IsDenied p bound st
      → NoLaterGrant p bound e
      → IsDenied p bound (apply parse_time st e)
  apply-IsDenied st e d early =
      apply_ind parse_time (IsDenied p bound) st e (λ _. apply_thread-IsDenied p bound st e d)
        (λ _. apply_membership-IsDenied p bound st e d)
        (λ _. apply_delegation-IsDenied p bound st e d)
        (λ _. apply_access_request-IsDenied p bound st e d)
        (λ k. apply_grant-IsDenied st e d (early k)) (λ _. apply_deny-IsDenied p bound st e d) d

  -- Once `p` is denied at `bound`, no continuation of the log gives `p` a grant, in whatever order
  -- its entries come, as long as no grant to `p` in it has a lamport above `bound`.
  pub fold_from-IsDenied :
      (thread : String) (st : State) (es : List Entry)
      → IsDenied p bound st
      → All (NoLaterGrant p bound) es
      → IsDenied p bound (fold_from parse_time thread st es)
  fold_from-IsDenied thread st es d early =
      fold_from_ind parse_time thread (IsDenied p bound) (NoLaterGrant p bound) apply-IsDenied st es
        d early

-- An admitted deny or revoke denies its principal at its lamport.
pub apply_deny-denies :
    (st : State) (e : Entry) (b : GrantBody)
    → may_decide st e ≡ true
    → decode_grant e.body ≡ some b
    → b.principal ≢ ""
    → IsDenied b.principal e.lamport (apply_deny st e)
unfolding apply_deny last_denied
apply_deny-denies st e b open_ q named = record {
  no_grant = ground (
    arith,
    open_,
    q,
    lookup-delete b.principal b.principal st.grants,
    string_eq.beq_iff b.principal b.principal,
    string_eq.beq_iff b.principal "",
  );
  since = ground (
    arith,
    open_,
    q,
    lookup-insert b.principal b.principal e.lamport st.denied_at,
    string_eq.beq_iff b.principal b.principal,
    string_eq.beq_iff b.principal "",
  );
}

-- The guard of a decision reads the stewards and the delegations only.
apply_grant-may_decide :
    (parse_time : String → Option Time) (st : State) (g d : Entry)
    → may_decide (apply_grant parse_time st g) d ≡ may_decide st d
unfolding apply_grant grant_of write_grant person_signed
apply_grant-may_decide parse_time st g d = ground arith

-- Of a deny (or revoke) that may decide and names a principal, and an entry that is no grant to that
-- principal with a higher lamport, applied in either order (as a grant where it comes first), the
-- deny wins: the principal is left without a grant, and denied at the deny's lamport or later.
pub deny-beats-grant :
    (parse_time : String → Option Time) (st : State) (d g : Entry) (b : GrantBody)
    → may_decide st d ≡ true
    → decode_grant d.body ≡ some b
    → b.principal ≢ ""
    → NoLaterGrant b.principal d.lamport g
    → IsDenied b.principal d.lamport (apply parse_time (apply_deny st d) g)
      × IsDenied b.principal d.lamport (apply_deny (apply_grant parse_time st g) d)
deny-beats-grant parse_time st d g b open_ q named early = (
  apply-IsDenied parse_time b.principal d.lamport _ g (apply_deny-denies st d b open_ q named)
      early,
  apply_deny-denies _ d b (rw apply_grant-may_decide open_) q named,
)
