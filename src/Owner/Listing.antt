-- ===== src/Owner/Listing.antt =====
-- api/portal.go: what the portal lists (handleState). The names that are shown beside principals are
-- left out.
use lamdis.Prelude.{
  String, Bool, false, ◌||◌, Option, none, some, List, [], ◌∷◌, ◌++◌, eqb, if◌then◌else◌,
}
use lamdis.Prelude.Eq.{◌==◌, string_eq}
use lamdis.Prelude.Lists.{length}
use lamdis.Prelude.Map.{keys, has}
use lamdis.Json.{Value, RawMessage}
use lamdis.Json.Unmarshal.{is_field, unmarshal, to_string}
use lamdis.Result.{Result, ok, err}
use lamdis.Store.{Store}
use lamdis.Log.Entry.{Entry, kind_grant}
use lamdis.Log.ThreadLog.{ThreadLog}
use lamdis.Perm.Apply.{fold}
use lamdis.Perm.Query.{pending_requests, effective_scopes}
use lamdis.Perm.State.{Time, State, AccessRequest}

-- portalGrant
pub record PortalGrant : Type 0 where
  pub principal : String
  pub scopes : List String

-- portalThread
pub record PortalThread : Type 0 where
  pub id : String
  pub title : String
  pub discoverable : Bool
  pub mine : Bool
  pub grants : List PortalGrant
  pub pending : List AccessRequest

-- the struct that a grant's body is decoded into: the principal
unfoldable pub set_grantee : String → Value → String → Option String
unfolding is_field to_string
set_grantee key v old = if is_field key "principal" then to_string v old else some old

unfoldable pub decode_grantee : RawMessage → Option String
unfolding set_grantee unmarshal
decode_grantee raw = unmarshal set_grantee raw ""

unfoldable pub is_listed : String → List PortalGrant → Bool
is_listed p [] = false
is_listed p (g ∷ rest) = g.principal == p || is_listed p rest

-- the grant of one principal, unless it has no scope now or is listed already
unfoldable pub add_grantee : State → Time → Option String → List PortalGrant → List PortalGrant
unfolding is_listed
add_grantee st now none grants = grants
add_grantee st now (some p) grants =
    let eff = effective_scopes st p now in
    if p == "" || eqb (length eff) 0 || is_listed p grants
    then grants
    else grants ++ record { principal = p; scopes = keys eff } ∷ []

-- the loop over the log
unfoldable pub list_grants : State → Time → List Entry → List PortalGrant → List PortalGrant
unfolding add_grantee decode_grantee
list_grants st now [] grants = grants
list_grants st now (e ∷ es) grants =
    list_grants st now es
      (if e.kind == kind_grant then add_grantee st now (decode_grantee e.body) grants else grants)

module _ {S : Type 0} (store : Store S) (self : String) (parse_time : String → Option Time)
    (now : Time) where
  unfoldable pub portal_thread : String → ThreadLog → PortalThread
  unfolding list_grants
  portal_thread id tl =
      let st = fold parse_time id tl.entries in
      record {
        id = id;
        title = st.title;
        discoverable = st.discoverable;
        mine = has st.stewards self;
        grants = list_grants st now tl.entries [];
        pending = pending_requests st;
      }

  unfoldable pub listed_thread : String → Result ThreadLog → List PortalThread
  unfolding portal_thread
  listed_thread id (err x) = []
  listed_thread id (ok tl) = portal_thread id tl ∷ []

  unfoldable pub portal_threads : List String → S → List PortalThread × S
  unfolding listed_thread
  portal_threads [] s = ([], s)
  portal_threads (id ∷ ids) s =
      let rest = portal_threads ids (store.thread id s).1 in
      (listed_thread id (store.thread id s).0 ++ rest.0, rest.1)

  unfoldable pub state_reply : Result (List String) → S → Option (List PortalThread) × S
  unfolding portal_threads
  state_reply (err x) s = (none, s)
  state_reply (ok ids) s = (some (portal_threads ids s).0, (portal_threads ids s).1)

  -- handleState: none for the internal error
  unfoldable pub handle_state : S → Option (List PortalThread) × S
  unfolding state_reply
  handle_state s = state_reply (store.threads s).0 (store.threads s).1
