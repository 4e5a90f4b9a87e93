-- ===== src/Sync/Server.antt =====
-- sync/sync.go: the server's verbs, over any store. The parser of time stamps and the current time
-- are parameters.
use lamdis.Prelude.{
  ℕ, String, Bool, false, ◌&&◌, ◌||◌, not, Option, none, some, List, [], ◌∷◌, ◌++◌, eqb,
  if◌then◌else◌,
}
use lamdis.Prelude.Eq.{◌==◌, string_eq}
use lamdis.Prelude.Lists.{length}
use lamdis.Prelude.Map.{Map, empty, lookup, insert, has}
use lamdis.Result.{
  Result, ok, err, thread_not_found, other_thread, not_the_author, not_a_steward, lacks_contribute,
  unknown_lane, only_access_requests,
}
use lamdis.Exec.{Exec, pure, fail, lift, attempt, ◌>>=◌, ◌>>◌}
use lamdis.Store.{Store}
use lamdis.Log.ChainKey.{ChainKey, chain_key_eq}
use lamdis.Log.Entry.{Entry, Lane, lane_control, lane_summary, lane_content, kind_access_request}
use lamdis.Log.ThreadLog.{ThreadLog, head_seqs, after}
use lamdis.Perm.Apply.{fold}
use lamdis.Perm.Query.{lanes, acts_for, may_contribute}
use lamdis.Perm.State.{Time, State}
use lamdis.Sync.Order.{order_for_append}

pub record Head : Type 0 where
  pub author : String
  pub lane : Lane
  pub seq : ℕ

pub record PullRequest : Type 0 where
  pub thread : String
  pub have : List Head

pub record PullResponse : Type 0 where
  pub entries : List Entry
  pub heads : List Head

pub record PushRequest : Type 0 where
  pub thread : String
  pub entries : List Entry

pub record PushResponse : Type 0 where
  pub accepted : ℕ

pub record DiscoverableThread : Type 0 where
  pub id : String
  pub title : String

-- `permitted[lane]`
unfoldable pub permits : List Lane → Lane → Bool
permits [] l = false
permits (p ∷ ps) l = p == l || permits ps l

-- the heads of a request, as a map by chain
unfoldable pub have_map : String → List Head → Map ChainKey ℕ → Map ChainKey ℕ
unfolding insert
have_map thread [] m = m
have_map thread (h ∷ hs) m =
    have_map thread hs
      (insert (record { thread = thread; author = h.author; lane = h.lane }) h.seq m)

-- `have[key]`, 0 where it is missing
unfoldable pub seq_or_zero : Map ChainKey ℕ → ChainKey → ℕ
unfolding lookup
seq_or_zero m k = elim (lookup k m) [ none ↦ 0 | some n ↦ n ]

-- the loop of Pull over the chains that the server holds
unfoldable pub collect :
    ThreadLog → List Lane → Map ChainKey ℕ → Map ChainKey ℕ → PullResponse → PullResponse
unfolding permits seq_or_zero
collect tl permitted have [] resp = resp
collect tl permitted have ((key, seq) ∷ rest) resp = collect tl permitted have rest (
    if permits permitted key.lane
    then record {
      entries = resp.entries ++ after tl key (seq_or_zero have key);
      heads = resp.heads ++ record { author = key.author; lane = key.lane; seq = seq } ∷ [];
    }
    else resp)

-- one round of the loop of Push: the checks on one entry
unfoldable pub check_pushed : State → String → String → Entry → Result (Unit {0})
check_pushed st principal thread e =
    if not (e.thread == thread)
    then err other_thread
    else if not (acts_for st e.author principal)
    then err not_the_author
    else if e.lane == lane_control
    then (if has st.stewards e.author then ok tt else err not_a_steward)
    else if e.lane == lane_summary || e.lane == lane_content
    then (if may_contribute st e.author e.lamport then ok tt else err lacks_contribute)
    else err unknown_lane

-- the loop of Push
unfoldable pub check_all : State → String → String → List Entry → Result (Unit {0})
unfolding check_pushed
check_all st principal thread [] = ok tt
check_all st principal thread (e ∷ es) =
    let rest = check_all st principal thread es in
    elim (check_pushed st principal thread e) [ ok _ ↦ rest | err x ↦ err x ]

module _ {S : Type 0} (store : Store S) (parse_time : String → Option Time) where
  -- visibleLanes
  unfoldable pub visible_lanes : Time → String → String → Exec S (List Lane)
  visible_lanes now thread principal = do
    tl ← store.thread thread
    pure (lanes (fold parse_time thread tl.entries) principal now)

  -- the loop of List
  unfoldable pub list_from : Time → String → List String → Exec S (List String)
  unfolding visible_lanes
  list_from now principal [] = pure []
  list_from now principal (id ∷ ids) = do
    ls ← visible_lanes now id principal
    rest ← list_from now principal ids
    pure (if eqb (length ls) 0 then rest else id ∷ rest)

  -- List
  unfoldable pub list : Time → String → Exec S (List String)
  unfolding list_from
  list now principal = do ids ← store.threads; list_from now principal ids

  -- The rest of Pull, on the caller's lanes: no lane is no thread.
  unfoldable pub pull_lanes : PullRequest → List Lane → Exec S PullResponse
  unfolding collect have_map
  pull_lanes req ls = if eqb (length ls) 0 then fail thread_not_found else (do
    tl ← store.thread req.thread
    pure (
        collect tl ls (have_map req.thread req.have empty) (head_seqs tl.heads)
          (record { entries = []; heads = [] })))

  -- Pull
  unfoldable pub pull : Time → String → PullRequest → Exec S PullResponse
  unfolding visible_lanes pull_lanes
  pull now principal req = do ls ← visible_lanes now req.thread principal; pull_lanes req ls

  -- The rest of Push, on the thread's log: check every entry, then append.
  unfoldable pub push_checked :
      String → PushRequest → ℕ → ThreadLog → List Entry → Exec S PushResponse
  push_checked principal req total tl ordered = do
    lift (check_all (fold parse_time req.thread tl.entries) principal req.thread ordered)
    store.append_entries ordered
    pure (record { accepted = total })

  -- Push of an unknown thread: the batch must start with an entry of the caller with the thread's id.
  unfoldable pub bootstrap : String → PushRequest → ℕ → List Entry → Exec S PushResponse
  unfolding push_checked
  bootstrap principal req total [] = fail thread_not_found
  bootstrap principal req total (e ∷ es) =
      if not (e.id == req.thread) || not (e.author == principal) then fail thread_not_found else do
        store.append_entries (e ∷ [])
        tl ← store.thread req.thread
        push_checked principal req total tl es

  -- Push to a thread that the store holds: a caller with no lane is told that there is none.
  unfoldable pub push_seen :
      String → PushRequest → List Entry → ThreadLog → Result (List Lane) → Exec S PushResponse
  unfolding push_checked
  push_seen principal req ordered tl (err x) = fail thread_not_found
  push_seen principal req ordered tl (ok ls) =
      if eqb (length ls) 0
      then fail thread_not_found
      else push_checked principal req (length ordered) tl ordered

  -- Push, once the store was asked for the thread
  unfoldable pub push_on :
      Time → String → PushRequest → List Entry → Result ThreadLog → Exec S PushResponse
  unfolding bootstrap push_seen visible_lanes
  push_on now principal req ordered (err x) = bootstrap principal req (length ordered) ordered
  push_on now principal req ordered (ok tl) = do
    seen ← attempt (visible_lanes now req.thread principal)
    push_seen principal req ordered tl seen

  -- Push
  unfoldable pub push : Time → String → PushRequest → Exec S PushResponse
  unfolding push_on
  push now principal req = do
    found ← attempt (store.thread req.thread)
    push_on now principal req (order_for_append req.entries req.thread) found

  -- the loop of Discover
  unfoldable pub discover_from : Time → String → List String → Exec S (List DiscoverableThread)
  discover_from now principal [] = pure []
  discover_from now principal (id ∷ ids) = do
    tl ← store.thread id
    rest ← discover_from now principal ids
    pure (
        let st = fold parse_time id tl.entries in
        if st.discoverable || not (eqb (length (lanes st principal now)) 0)
        then record { id = id; title = st.title } ∷ rest
        else rest)

  -- Discover
  unfoldable pub discover : Time → String → Exec S (List DiscoverableThread)
  unfolding discover_from
  discover now principal = do ids ← store.threads; discover_from now principal ids

  -- SubmitAccessRequest, for a thread that the store holds
  unfoldable pub submit_to : Time → String → Entry → ThreadLog → Exec S (Unit {0})
  submit_to now principal e tl =
      let st = fold parse_time e.thread tl.entries in
      if not st.discoverable && eqb (length (lanes st principal now)) 0
      then fail thread_not_found
      else if not (e.kind == kind_access_request) || not (e.lane == lane_control)
      then fail only_access_requests
      else if not (acts_for st e.author principal)
      then fail not_the_author
      else store.append_entries (e ∷ [])

  unfoldable pub submit_found : Time → String → Entry → Result ThreadLog → Exec S (Unit {0})
  unfolding submit_to
  submit_found now principal e (err x) = fail thread_not_found
  submit_found now principal e (ok tl) = submit_to now principal e tl

  -- SubmitAccessRequest
  unfoldable pub submit_access_request : Time → String → Entry → Exec S (Unit {0})
  unfolding submit_found
  submit_access_request now principal e = do
    found ← attempt (store.thread e.thread)
    submit_found now principal e found
