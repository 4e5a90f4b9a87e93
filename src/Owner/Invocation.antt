-- ===== src/Owner/Invocation.antt =====
-- cmd/lamdis/main.go: the commands that the arguments of the program name, and denying on the command line.
-- Flags of a command are read by the flag package: the commands that have some are given their arguments.
use lamdis.Prelude.{ℕ, String, Bool, true, false, Option, none, some, List, [], ◌∷◌, if◌then◌else◌}
use lamdis.Prelude.Eq.{◌==◌, string_eq}
use lamdis.Prelude.Map.{Map}
use lamdis.Exec.{Exec, lift, ◌>>=◌}
use lamdis.Store.{Store}
use lamdis.Log.Crypto.{Crypto}
use lamdis.Log.Entry.{kind_deny, kind_revoke}
use lamdis.Result.{Result}
use lamdis.Log.ThreadLog.{ThreadLog}
use lamdis.Mcp.Words.{join}
use lamdis.Owner.Control.{denial_fields, grant_write}
use lamdis.Owner.Resolve.{Peer, resolve_thread, resolve_who}

-- the cases of run's switch, with what they pass on
pub data Invocation : Type 0 where
  init whoami threads mcp peers requests usage : Invocation
  thread_new : String → Bool → Invocation
  post grant serve sync : List String → Invocation
  read access discover search : String → Invocation
  peer_add share deny revoke : String → String → Invocation
  request : String → String → String → String → Invocation
  approve : String → String → Option String → Invocation

unfoldable pub no_arguments : String → Invocation
no_arguments cmd =
    if cmd == "init"
    then init
    else if cmd == "whoami"
    then whoami
    else if cmd == "threads"
    then threads
    else if cmd == "mcp"
    then mcp
    else if cmd == "peers"
    then peers
    else if cmd == "requests"
    then requests
    else usage

unfoldable pub any_arguments : String → List String → Invocation
unfolding no_arguments
any_arguments cmd args =
    if cmd == "post"
    then post args
    else if cmd == "grant"
    then grant args
    else if cmd == "serve"
    then serve args
    else if cmd == "sync"
    then sync args
    else no_arguments cmd

unfoldable pub one_argument : String → String → Invocation
unfolding any_arguments
one_argument cmd a =
    if cmd == "read"
    then read a
    else if cmd == "access"
    then access a
    else if cmd == "discover"
    then discover a
    else if cmd == "search"
    then search a
    else any_arguments cmd (a ∷ [])

-- `thread new [-discoverable] <title>`
unfoldable pub new_thread_command : String → List String → Invocation
unfolding join
new_thread_command first rest =
    if first == "-discoverable"
    then thread_new (join " " rest) true
    else thread_new (join " " (first ∷ rest)) false

unfoldable pub two_arguments : String → String → String → Invocation
unfolding new_thread_command any_arguments join
two_arguments cmd a b =
    if cmd == "thread"
    then (if a == "new" then new_thread_command b [] else usage)
    else if cmd == "share"
    then share a b
    else if cmd == "deny"
    then deny a b
    else if cmd == "revoke"
    then revoke a b
    else if cmd == "approve"
    then approve a b none
    else if cmd == "search"
    then search (join " " (a ∷ b ∷ []))
    else any_arguments cmd (a ∷ b ∷ [])

unfoldable pub more_arguments : String → String → String → String → List String → Invocation
unfolding new_thread_command any_arguments join
more_arguments cmd a b d rest =
    if cmd == "thread"
    then (if a == "new" then new_thread_command b (d ∷ rest) else usage)
    else if cmd == "request"
    then request a b d (join " " rest)
    else if cmd == "search"
    then search (join " " (a ∷ b ∷ d ∷ rest))
    else any_arguments cmd (a ∷ b ∷ d ∷ rest)

unfoldable pub three_arguments : String → String → String → String → Invocation
unfolding more_arguments
three_arguments cmd a b d =
    if cmd == "peer"
    then (if a == "add" then peer_add b d else usage)
    else if cmd == "approve"
    then approve a b (some d)
    else more_arguments cmd a b d []

-- run, behind the flag of the data directory
unfoldable pub invocation : List String → Invocation
unfolding any_arguments one_argument two_arguments three_arguments more_arguments
invocation [] = usage
invocation (cmd ∷ []) = any_arguments cmd []
invocation (cmd ∷ a ∷ []) = one_argument cmd a
invocation (cmd ∷ a ∷ b ∷ []) = two_arguments cmd a b
invocation (cmd ∷ a ∷ b ∷ d ∷ []) = three_arguments cmd a b d
invocation (cmd ∷ a ∷ b ∷ d ∷ f ∷ rest) = more_arguments cmd a b d (f ∷ rest)

-- `key` is what loadKey gives.
module _ {S : Type 0} (c : Crypto) (store : Store S) (keep_log : ThreadLog → S → S)
    (key : Result (List ℕ)) (id ts : String) (lower upper : String → String)
    (peers : Map String Peer) where
  -- the case deny
  unfoldable pub cmd_deny : String → String → Exec S String
  unfolding denial_fields grant_write
  cmd_deny ref who_ref = do
    thread ← resolve_thread store lower upper ref
    who ← lift (resolve_who peers who_ref)
    priv ← lift key
    grant_write c store keep_log priv id ts kind_deny thread (denial_fields who)

  -- the case revoke
  unfoldable pub cmd_revoke : String → String → Exec S String
  unfolding denial_fields grant_write
  cmd_revoke ref who_ref = do
    thread ← resolve_thread store lower upper ref
    who ← lift (resolve_who peers who_ref)
    priv ← lift key
    grant_write c store keep_log priv id ts kind_revoke thread (denial_fields who)

  -- the part of run that denies and revokes: none for the other commands
  unfoldable pub run_denial : Invocation → Option (Exec S String)
  unfolding cmd_deny cmd_revoke
  run_denial (deny ref who_ref) = some (cmd_deny ref who_ref)
  run_denial (revoke ref who_ref) = some (cmd_revoke ref who_ref)
  run_denial _ = none
