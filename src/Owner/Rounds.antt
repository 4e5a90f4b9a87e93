-- ===== src/Owner/Rounds.antt =====
-- cmd/lamdis/main.go: a round of sync over the peers, and sharing a thread with one. The network takes a
-- peer's address; what follows a round, the embedding of new entries, is the worker's.
use lamdis.Prelude.{ℕ, ◌+◌, String, Option, none, some, List, [], ◌∷◌, eqb, if◌then◌else◌}
use lamdis.Prelude.Eq.{string_eq}
use lamdis.Prelude.Map.{Map, empty, lookup, size}
use lamdis.Result.{Result, ok, err, not_a_peer}
use lamdis.Exec.{Exec, lift, ◌>>=◌}
use lamdis.Store.{Store}
use lamdis.Log.Crypto.{Crypto}
use lamdis.Perm.State.{Time}
use lamdis.Sync.Client.{Client, Transport, sync_all, share_thread}
use lamdis.Api.Auth.{Request}
use lamdis.Api.Handlers.{Reply}
use lamdis.Api.Remote.{Encoders, http_transport}
use lamdis.Owner.Resolve.{Peer, resolve_thread}

-- the peers of a round: all, or the one that the command names
unfoldable pub one_peer : String → Option Peer → Result (Map String Peer)
one_peer name none = err not_a_peer
one_peer name (some p) = ok ((name, p) ∷ [])

unfoldable pub selected : Map String Peer → Option String → Result (Map String Peer)
unfolding one_peer
selected peers none = ok peers
selected peers (some name) = one_peer name (lookup name peers)

unfoldable pub some_peers : Map String Peer → Result (Map String Peer)
some_peers peers = if eqb (size peers) 0 then err not_a_peer else ok peers

unfoldable pub total : Map String ℕ → ℕ
total [] = 0
total ((id, n) ∷ rest) = n + total rest

-- what is printed of a peer: the threads seen and the entries exchanged
unfoldable pub summary : Result (Map String ℕ) → Result (ℕ × ℕ)
unfolding total
summary (err x) = err x
summary (ok counts) = ok (size counts, total counts)

module _ {S : Type 0} (c : Crypto) (store : Store S) (priv : List ℕ) (ts : String) (json : Encoders)
    (network : String → Request → S → Option Reply × S) (parse_time : String → Option Time)
    (self : String) where
  abbrev pub transport_to : Peer → Transport S
  transport_to p = http_transport c priv ts json (network p.url)

  abbrev pub client : Client
  client = record { self = self; self_keys = empty }

  -- a round: a peer that fails does not stop it
  unfoldable pub round : Map String Peer → S → List (String × Result (ℕ × ℕ)) × S
  unfolding summary
  round [] s = ([], s)
  round ((name, p) ∷ rest) s =
      let seen = sync_all store (transport_to p) parse_time client s in
      let more = round rest seen.1 in ((name, summary seen.0) ∷ more.0, more.1)

  -- cmdSync, without the flag that repeats it
  unfoldable pub cmd_sync :
      Map String Peer → Option String → Exec S (List (String × Result (ℕ × ℕ)))
  unfolding round selected some_peers
  cmd_sync peers name = do
    chosen ← lift (selected peers name)
    full ← lift (some_peers chosen)
    (λ s. (ok (round full s).0, (round full s).1))

  -- peerTransport
  unfoldable pub peer_transport : Option Peer → Result Peer
  peer_transport none = err not_a_peer
  peer_transport (some p) = ok p

  -- cmdShare
  unfoldable pub cmd_share :
      (String → String) → (String → String) → Map String Peer → String → String → Exec S ℕ
  unfolding peer_transport
  cmd_share lower upper peers ref name = do
    thread ← resolve_thread store lower upper ref
    p ← lift (peer_transport (lookup name peers))
    share_thread store (transport_to p) parse_time client thread
