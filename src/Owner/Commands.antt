-- ===== src/Owner/Commands.antt =====
-- cmd/lamdis/main.go: the commands that write to the store or to a peer, and what the listing commands
-- print, as values. The person's key, the peers' file and the flags are read beforehand.
use lamdis.Prelude.{
  ℕ, String, Bool, ◌||◌, Option, none, some, List, [], ◌∷◌, ◌++◌, eqb, if◌then◌else◌,
}
use lamdis.Prelude.Eq.{◌==◌, string_eq}
use lamdis.Prelude.Lists.{length}
use lamdis.Prelude.Map.{Map, keys}
use lamdis.Prelude.Text.{codes}
use lamdis.Json.{Value, Fields, RawMessage, num, field, end}
use lamdis.Json.Unmarshal.{◌>>=◌ as or_none, is_field, unmarshal, to_string, to_strings}
use lamdis.Result.{Result, ok, err, nothing_pending, no_such_thread, several_threads}
use lamdis.Exec.{Exec, pure, lift, ◌>>=◌, ◌>>◌}
use lamdis.Store.{Store}
use lamdis.Log.Author.{author_append, new_thread_with}
use lamdis.Log.Crypto.{Crypto}
use lamdis.Log.Entry.{Entry, Lane, lane_summary, kind_grant, kind_message, kind_summary}
use lamdis.Log.ThreadLog.{ThreadLog}
use lamdis.Perm.Apply.{fold}
use lamdis.Perm.Query.{pending_requests, effective_scopes}
use lamdis.Perm.State.{Time, State, AccessRequest}
use lamdis.Sync.Client.{build_access_request}
use lamdis.Sync.Server.{DiscoverableThread}
use lamdis.Owner.Control.{grant_fields, grant_write}
use lamdis.Owner.Threads.{titles, all_pending}
use lamdis.Owner.Resolve.{Peer, resolve_thread, resolve_who, is_infix}
use lamdis.Owner.Words.{read_scopes}

-- the loop of cmdApprove: the last request of the person
unfoldable pub last_asked :
    String → List AccessRequest → List String → String → List String × String
last_asked who [] scopes request = (scopes, request)
last_asked who (r ∷ rest) scopes request =
    last_asked who rest (if r.principal == who then r.scopes else scopes)
      (if r.principal == who then r.entry_id else request)

-- explicit scopes override the asked-for ones
unfoldable pub chosen : Option String → List String → Result (List String)
chosen none scopes = ok scopes
chosen (some arg) scopes = read_scopes arg

-- the time to live: none where the flag is not positive, the seconds as JSON's number otherwise
unfoldable pub ttl_fields : Option String → Fields
ttl_fields none = end
ttl_fields (some seconds) = field "ttl_seconds" (num seconds) end

-- what a line of cmdAccess tells of a grant
abbrev pub GrantLine : Type 0
GrantLine = String × List String

-- the struct that cmdAccess decodes a grant's body into: principal and scopes
unfoldable pub set_listed : String → Value → String × List String → Option (String × List String)
set_listed key v (principal, scopes) =
    if is_field key "principal"
    then or_none (to_string v principal) (λ p. some (p, scopes))
    else if is_field key "scopes"
    then or_none (to_strings v scopes) (λ ss. some (principal, ss))
    else some (principal, scopes)

unfoldable pub decode_listed : RawMessage → Option (String × List String)
unfolding set_listed unmarshal is_field to_string to_strings
decode_listed raw = unmarshal set_listed raw ("", [])

unfoldable pub grant_line : State → Time → Option (String × List String) → List GrantLine
grant_line st now none = []
grant_line st now (some (principal, scopes)) =
    let have = effective_scopes st principal now in
    if eqb (length have) 0 then [] else (principal, keys have) ∷ []

unfoldable pub grant_lines : State → Time → List Entry → List GrantLine
unfolding grant_line decode_listed
grant_lines st now [] = []
grant_lines st now (e ∷ es) =
    let rest = grant_lines st now es in
    if e.kind == kind_grant then grant_line st now (decode_listed e.body) ++ rest else rest

-- the loop of cmdRequest over what the peer offers: one thread by id or by a part of its title
unfoldable pub is_target : (String → String) → String → DiscoverableThread → Bool
is_target lower ref t = t.id == ref || is_infix (codes (lower ref)) (codes (lower t.title))

unfoldable pub find_target :
    (String → String) → String → List DiscoverableThread → String → Result String
unfolding is_target
find_target lower ref [] target = if target == "" then err no_such_thread else ok target
find_target lower ref (t ∷ ts) target =
    let next = find_target lower ref ts (if is_target lower ref t then t.id else target) in
    if is_target lower ref t then (if target == "" then next else err several_threads) else next

-- the kind of a post where the flag leaves it out
unfoldable pub default_kind : String → Lane → String
default_kind kind lane =
    if kind == "" then (if lane == lane_summary then kind_summary else kind_message) else kind

module _ {S : Type 0} (c : Crypto) (store : Store S) (keep_log : ThreadLog → S → S) (priv : List ℕ)
    (id ts : String) (parse_time : String → Option Time) (now : Time)
    (lower upper : String → String) (peers : Map String Peer) where
  -- cmdGrant
  unfoldable pub cmd_grant : String → String → String → Option String → Exec S String
  unfolding ttl_fields
  cmd_grant ref who_ref scopes_arg ttl = do
    thread ← resolve_thread store lower upper ref
    who ← lift (resolve_who peers who_ref)
    scopes ← lift (read_scopes scopes_arg)
    grant_write c store keep_log priv id ts kind_grant thread
        (grant_fields who "" scopes (ttl_fields ttl))

  -- cmdApprove, once the names are resolved
  unfoldable pub approve_at : String → String → Option String → Exec S String
  unfolding last_asked chosen
  approve_at thread who explicit = do
    tl ← store.thread thread
    scopes ← lift (
        chosen explicit
          (last_asked who (pending_requests (fold parse_time thread tl.entries)) [] "").0)
    if eqb (length scopes) 0
        then (λ s. (err nothing_pending, s))
        else grant_write c store keep_log priv id ts kind_grant thread (
            grant_fields who
              (last_asked who (pending_requests (fold parse_time thread tl.entries)) [] "").1 scopes
              end)

  unfoldable pub cmd_approve : String → String → Option String → Exec S String
  unfolding approve_at
  cmd_approve ref who_ref explicit = do
    thread ← resolve_thread store lower upper ref
    who ← lift (resolve_who peers who_ref)
    approve_at thread who explicit

  -- cmdThreadNew
  unfoldable pub cmd_thread_new : String → Bool → Exec S String
  cmd_thread_new title discoverable = do
    r ← lift (new_thread_with c priv title discoverable id ts)
    store.append_entries r.0.entries
    pure r.1.id

  -- cmdPost, with the body that the flags and arguments make
  unfoldable pub cmd_post : String → String → Lane → RawMessage → Exec S String
  unfolding default_kind
  cmd_post ref kind lane body = do
    thread ← resolve_thread store lower upper ref
    tl ← store.thread thread
    r ← lift (
        author_append c priv tl id ts (record {
          kind = default_kind kind lane;
          lane = lane;
          on_behalf_of = "";
          refs = none;
          body = some body;
        }))
    (λ s. (ok tt, keep_log r.0 s))
    store.append_entries (r.1 ∷ [])
    pure r.1.id

  -- cmdAccess: the stewards and the grants in force
  unfoldable pub cmd_access : String → Exec S (List String × List GrantLine)
  unfolding grant_lines
  cmd_access thread = do
    tl ← store.thread thread
    pure (
      keys (fold parse_time thread tl.entries).stewards,
      grant_lines (fold parse_time thread tl.entries) now tl.entries,
    )

  -- cmdThreads: each thread with its title
  unfoldable pub cmd_threads : Exec S (List (String × String))
  cmd_threads = do ids ← store.threads; (λ s. (ok (titles store ids s).0, (titles store ids s).1))

  -- cmdRequests: the title of a thread and each of its pending requests
  unfoldable pub cmd_requests : Exec S (List (String × AccessRequest))
  cmd_requests = do
    ids ← store.threads
    (λ s. (ok (all_pending store parse_time ids s).0, (all_pending store parse_time ids s).1))

  -- cmdRequest, over the peer's transport
  unfoldable pub cmd_request :
      Exec S (List DiscoverableThread)
      → (Entry → Exec S (Unit {0}))
      → String
      → String
      → String
      → Exec S (Unit {0})
  unfolding find_target
  cmd_request discover request_access ref scopes_arg reason = do
    scopes ← lift (read_scopes scopes_arg)
    threads ← discover
    target ← lift (find_target lower ref threads "")
    e ← lift (build_access_request c priv target scopes reason id ts)
    request_access e
