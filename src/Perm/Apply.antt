-- ===== src/Perm/Apply.antt =====
-- perm/perm.go: Fold and apply, a function for each kind of control entry. The parser of time stamps
-- (time.Parse with RFC3339) is a parameter.
use lamdis.Prelude.{
  ℕ, String, Bool, true, false, ◌&&◌, ◌||◌, not, Option, none, some, List, [], ◌∷◌, leb, ltb, eqb,
  if◌then◌else◌,
}
use lamdis.Prelude.Eq.{◌==◌, string_eq}
use lamdis.Prelude.Int.{ℤ, pos, negsuc}
use lamdis.Prelude.Lists.{length}
use lamdis.Prelude.Map.{Map, empty, lookup, insert, delete, has, size}
use lamdis.Json.Bodies.{
  ThreadBody, GrantBody, MembershipBody, DelegationBody, RequestBody, decode_thread, decode_grant,
  decode_membership, decode_delegation, decode_request,
}
use lamdis.Log.Entry.{
  Entry, lane_control, kind_thread, kind_membership, kind_delegation, kind_access_request,
  kind_grant, kind_deny, kind_revoke,
}
use lamdis.Perm.Scope.{ScopeSet, scope_contribute, granted_scopes}
use lamdis.Perm.State.{Time, AccessRequest, State, new_state, add_seconds}

-- personSigned
unfoldable pub person_signed : State → Entry → Bool
person_signed st e =
    e.on_behalf_of == "" && elim (lookup e.author st.delegations) [ none ↦ true | some _ ↦ false ]

-- `st.Stewards[e.Author] && st.personSigned(e)`, the guard of membership, grant, deny and revoke
abbrev pub may_decide : State → Entry → Bool
may_decide st e = has st.stewards e.author && person_signed st e

-- core.thread
unfoldable pub add_stewards : List String → Map String Bool → Map String Bool
add_stewards [] m = m
add_stewards (s ∷ rest) m = add_stewards rest (insert s true m)

unfoldable pub open_thread : State → Option ThreadBody → State
unfolding add_stewards
open_thread st none = st
open_thread st (some b) = record st {
  stewards = add_stewards b.stewards st.stewards;
  title = b.title;
  discoverable = b.discoverable;
}

-- the creator is a steward where the body names none
unfoldable pub or_creator : String → State → State
or_creator author st =
    if eqb (size st.stewards) 0 then record st { stewards = insert author true st.stewards } else st

unfoldable pub apply_thread : State → Entry → State
unfolding open_thread or_creator
apply_thread st e = or_creator e.author (open_thread st (decode_thread e.body))

-- core.membership
unfoldable pub change_member : State → MembershipBody → State
change_member st b =
    if b.role == "steward"
    then record st { stewards = insert b.member true st.stewards }
    else if b.role == "removed"
    then (if has st.stewards b.member && eqb (size st.stewards) 1 then st else record st {
      stewards = delete b.member st.stewards;
      grants = delete b.member st.grants;
      expiry = delete b.member st.expiry;
    })
    else st

unfoldable pub member_of : State → Option MembershipBody → State
unfolding change_member
member_of st none = st
member_of st (some b) = if b.member == "" then st else change_member st b

unfoldable pub apply_membership : State → Entry → State
unfolding person_signed member_of
apply_membership st e = if may_decide st e then member_of st (decode_membership e.body) else st

-- core.delegation
unfoldable pub change_delegation : State → String → DelegationBody → State
change_delegation st author b =
    if b.revoked
    then (if elim (lookup b.agent st.delegations) [ none ↦ "" | some p ↦ p ] == author
        then record st { delegations = delete b.agent st.delegations }
        else st)
    else record st { delegations = insert b.agent author st.delegations }

unfoldable pub delegation_of : State → String → Option DelegationBody → State
unfolding change_delegation
delegation_of st author none = st
delegation_of st author (some b) = if b.agent == "" then st else change_delegation st author b

unfoldable pub apply_delegation : State → Entry → State
unfolding delegation_of
apply_delegation st e =
    if e.on_behalf_of == "" then delegation_of st e.author (decode_delegation e.body) else st

-- core.access_request
unfoldable pub request_of : State → Entry → Option RequestBody → State
request_of st e none = st
request_of st e (some b) =
    let principal = if e.on_behalf_of == "" then e.author else e.on_behalf_of in
    record st {
      requests =
          insert principal
            (record {
              entry_id = e.id;
              principal = principal;
              scopes = b.scopes;
              reason = b.reason;
              ts = e.ts;
              lamport = e.lamport;
            })
            st.requests;
    }

unfoldable pub apply_access_request : State → Entry → State
unfolding request_of
apply_access_request st e = request_of st e (decode_request e.body)

-- An answer at `lamport` closes the principal's request, unless the request is later.
unfoldable pub close_request : String → ℕ → Map String AccessRequest → Map String AccessRequest
close_request p lamport requests = elim (lookup p requests) [
  | none ↦ requests
  | some r ↦ if leb r.lamport lamport then delete p requests else requests
]

-- `st.deniedAt[p]`, 0 where the principal was never denied
unfoldable pub last_denied : State → String → ℕ
last_denied st p = elim (lookup p st.denied_at) [ none ↦ 0 | some at ↦ at ]

-- the earliest grant with contribute
unfoldable pub note_contribute : String → ℕ → ScopeSet → Map String ℕ → Map String ℕ
note_contribute p lamport ss m =
    if has ss scope_contribute
    then elim (lookup p m) [
      | none ↦ insert p lamport m
      | some at ↦ if ltb lamport at then insert p lamport m else m
    ]
    else m

-- core.deny and core.revoke
unfoldable pub deny_of : State → Entry → Option GrantBody → State
unfolding close_request last_denied
deny_of st e none = st
deny_of st e (some b) = if b.principal == "" then st else record st {
  grants = delete b.principal st.grants;
  expiry = delete b.principal st.expiry;
  requests = close_request b.principal e.lamport st.requests;
  denied_at =
      if ltb (last_denied st b.principal) e.lamport
      then insert b.principal e.lamport st.denied_at
      else st.denied_at;
}

unfoldable pub apply_deny : State → Entry → State
unfolding person_signed deny_of
apply_deny st e = if may_decide st e then deny_of st e (decode_grant e.body) else st

module _ (parse_time : String → Option Time) where
  -- the expiry that a grant leaves
  unfoldable pub note_expiry : String → ℤ → String → Map String Time → Map String Time
  unfolding add_seconds
  note_expiry p (negsuc n) ts m = delete p m
  note_expiry p (pos n) ts m =
      if ltb 0 n
      then elim (parse_time ts) [ none ↦ m | some t ↦ insert p (add_seconds t n) m ]
      else delete p m

  -- what a grant of the scopes `ss` writes
  unfoldable pub write_grant : State → Entry → GrantBody → ScopeSet → State
  unfolding close_request note_contribute note_expiry
  write_grant st e b ss = record st {
    requests = close_request b.principal e.lamport st.requests;
    grants = insert b.principal ss st.grants;
    contrib_at = note_contribute b.principal e.lamport ss st.contrib_at;
    expiry = note_expiry b.principal b.ttl_seconds e.ts st.expiry;
  }

  -- core.grant
  unfoldable pub grant_of : State → Entry → Option GrantBody → State
  unfolding write_grant last_denied granted_scopes
  grant_of st e none = st
  grant_of st e (some b) =
      if b.principal == ""
      then st
      else if leb e.lamport (last_denied st b.principal)
      then st
      else (let ss = granted_scopes b.scopes empty in
          if eqb (length ss) 0 then st else write_grant st e b ss)

  unfoldable pub apply_grant : State → Entry → State
  unfolding person_signed grant_of
  apply_grant st e = if may_decide st e then grant_of st e (decode_grant e.body) else st

  -- apply
  unfoldable pub apply : State → Entry → State
  apply st e =
      if e.kind == kind_thread
      then apply_thread st e
      else if e.kind == kind_membership
      then apply_membership st e
      else if e.kind == kind_delegation
      then apply_delegation st e
      else if e.kind == kind_access_request
      then apply_access_request st e
      else if e.kind == kind_grant
      then apply_grant st e
      else if e.kind == kind_deny || e.kind == kind_revoke
      then apply_deny st e
      else st

  -- one round of Fold: other lanes and other threads are passed over
  unfoldable pub fold_step : String → State → Entry → State
  fold_step thread st e =
      if not (e.lane == lane_control) || not (e.thread == thread) then st else apply st e

  -- the loop of Fold
  unfoldable pub fold_from : String → State → List Entry → State
  unfolding fold_step
  fold_from thread st [] = st
  fold_from thread st (e ∷ es) = fold_from thread (fold_step thread st e) es

  -- Fold
  unfoldable pub fold : String → List Entry → State
  unfolding fold_from new_state
  fold thread entries = fold_from thread (new_state thread) entries
