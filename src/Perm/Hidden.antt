-- ===== src/Perm/Hidden.antt =====
-- What a denied principal sees of the thread: nothing.
use lamdis.Prelude.{
  ℕ, String, ◌≡◌, ◌≢◌, ◌⊎◌, true, false, Option, none, some, List, [], ◌∷◌, ◌++◌, arith,
}
use lamdis.Prelude.Eq.{string_eq}
use lamdis.Prelude.Lists.{All}
use lamdis.Prelude.Map.{lookup, has}
use lamdis.Json.Bodies.{GrantBody, decode_grant}
use lamdis.Log.Entry.{Entry, lane_control, kind_deny, kind_revoke}
use lamdis.Perm.State.{Time, State}
use lamdis.Perm.Apply.{may_decide, fold, fold_from}
use lamdis.Perm.Query.{lanes, effective_scopes, person_of, scopes_of_person}
use lamdis.Perm.Scope.{lanes_of}
use lamdis.Perm.Cases.{fold_from-append, fold_step-control, apply-deny}
use lamdis.Perm.Denied.{IsDenied, NoLaterGrant, fold_from-IsDenied, apply_deny-denies}

pub person_of_self : (st : State) (p : String) → lookup p st.delegations ≡ none → person_of st p ≡ p
unfolding person_of
person_of_self st p own = ground (arith, own)

pub IsDenied-lanes :
    (p : String) (bound : ℕ) (st : State) (now : Time)
    → IsDenied p bound st
    → has st.stewards p ≡ false
    → lookup p st.delegations ≡ none
    → lanes st p now ≡ []
unfolding lanes effective_scopes
IsDenied-lanes p bound st now d plain own =
    rw (person_of_self st p own)
      (unfold scopes_of_person lanes_of in ground (arith, plain, d.no_grant))

module _ (parse_time : String → Option Time) (thread : String) (before later : List Entry)
    (d : Entry) (b : GrantBody) where
  fold-IsDenied :
      d.lane ≡ lane_control
      → d.thread ≡ thread
      → (d.kind ≡ kind_deny) ⊎ (d.kind ≡ kind_revoke)
      → may_decide (fold parse_time thread before) d ≡ true
      → decode_grant d.body ≡ some b
      → b.principal ≢ ""
      → All (NoLaterGrant b.principal d.lamport) later
      → IsDenied b.principal d.lamport (fold parse_time thread (before ++ d ∷ later))
  unfolding fold fold_from
  fold-IsDenied l t k open_ q named early =
      rw (fold_from-append, fold_step-control, l, t)
        (rw (apply-deny, k)
          (fold_from-IsDenied parse_time b.principal d.lamport thread _ later
            (apply_deny-denies _ d b open_ q named) early))

  -- A deny or revoke of the thread's control lane names a principal, and its author may decide by the
  -- permissions before it; no grant to the principal behind it has a higher lamport. Then the
  -- principal, unless it ends up a steward or a delegated key, may replicate no lane of the thread at
  -- any time, whatever else the log holds.
  pub denied-lanes :
      d.lane ≡ lane_control
      → d.thread ≡ thread
      → (d.kind ≡ kind_deny) ⊎ (d.kind ≡ kind_revoke)
      → may_decide (fold parse_time thread before) d ≡ true
      → decode_grant d.body ≡ some b
      → b.principal ≢ ""
      → All (NoLaterGrant b.principal d.lamport) later
      → has (fold parse_time thread (before ++ d ∷ later)).stewards b.principal ≡ false
      → lookup b.principal (fold parse_time thread (before ++ d ∷ later)).delegations ≡ none
      → (now : Time) → lanes (fold parse_time thread (before ++ d ∷ later)) b.principal now ≡ []
  denied-lanes l t k open_ q named early plain own now =
      IsDenied-lanes b.principal d.lamport _ now (fold-IsDenied l t k open_ q named early) plain own
