-- ===== src/Owner/Threads.antt =====
-- cmd/lamdis/main.go, mcp/server.go: what a node lists of its threads: their titles, and the requests that
-- wait for a decision.
use lamdis.Prelude.{String, Option, List, [], ◌∷◌, ◌++◌}
use lamdis.Result.{Result, ok, err}
use lamdis.Store.{Store}
use lamdis.Log.ThreadLog.{ThreadLog}
use lamdis.Perm.Apply.{fold}
use lamdis.Perm.Query.{pending_requests}
use lamdis.Perm.State.{Time, AccessRequest}
use lamdis.Owner.Resolve.{title_of_log}

-- each thread with its title, "" where there is none
unfoldable pub titles : {S : Type 0} → Store S → List String → S → List (String × String) × S
unfolding title_of_log
titles store [] s = ([], s)
titles store (t ∷ rest) s =
    let more = titles store rest (store.thread t s).1 in
    ((t, title_of_log t (store.thread t s).0) ∷ more.0, more.1)

unfoldable pub titled : String → List AccessRequest → List (String × AccessRequest)
titled title [] = []
titled title (r ∷ rest) = (title, r) ∷ titled title rest

-- the title of a thread with each of its pending requests; a thread that cannot be read has none
unfoldable pub pending_in :
    (String → Option Time) → String → Result ThreadLog → List (String × AccessRequest)
unfolding titled
pending_in parse_time thread (err x) = []
pending_in parse_time thread (ok tl) =
    let st = fold parse_time thread tl.entries in titled st.title (pending_requests st)

unfoldable pub all_pending :
    {S : Type 0}
    → Store S
    → (String → Option Time)
    → List String
    → S
    → List (String × AccessRequest) × S
unfolding pending_in
all_pending store parse_time [] s = ([], s)
all_pending store parse_time (t ∷ rest) s =
    let more = all_pending store parse_time rest (store.thread t s).1 in
    (pending_in parse_time t (store.thread t s).0 ++ more.0, more.1)
