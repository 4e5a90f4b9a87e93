-- ===== src/Api/Remote.antt =====
-- api/api.go: HTTPTransport. The network is a parameter: it takes a request and gives the peer's reply,
-- or none where the call fails. What encoding/json writes and reads is a parameter too.
use lamdis.Prelude.{ℕ, String, Option, none, some, List}
use lamdis.Result.{Result, ok, err, peer_error, refused_by_peer, bad_answer}
use lamdis.Exec.{Exec, lift, ◌>>=◌}
use lamdis.Log.Crypto.{Crypto}
use lamdis.Log.Entry.{Entry}
use lamdis.Sync.Client.{Transport}
use lamdis.Sync.Server.{PullRequest, PullResponse, PushRequest, PushResponse, DiscoverableThread}
use lamdis.Api.Auth.{Request, sign_request}
use lamdis.Api.Handlers.{Reply, failed}

-- json.Marshal of the requests, and what the answers decode to
pub record Encoders : Type 0 where
  pub nothing : String
  pub of_pull : PullRequest → String
  pub of_push : PushRequest → String
  pub of_entry : Entry → String
  pub read_list : Reply → Option (List String)
  pub read_pull : Reply → Option PullResponse
  pub read_push : Reply → Option PushResponse
  pub read_discovered : Reply → Option (List DiscoverableThread)
  pub read_accepted : Reply → Option (Unit {0})

unfoldable pub decoded {ℓ} : {A : Type ℓ} → Option A → Result A
decoded none = err bad_answer
decoded (some a) = ok a

-- `resp.StatusCode != http.StatusOK`
unfoldable pub status_ok : Option Reply → Result Reply
status_ok none = err peer_error
status_ok (some (failed status text)) = err refused_by_peer
status_ok (some reply) = ok reply

abbrev pub post_request : String → String → Request
post_request path body = record {
  method = "POST";
  path = path;
  principal = "";
  timestamp = "";
  signature = "";
  body = body;
}

-- `ts` is the time that Sign formats.
module _ {S : Type 0} (c : Crypto) (priv : List ℕ) (ts : String) (json : Encoders)
    (network : Request → S → Option Reply × S) where
  abbrev pub call : Request → Exec S Reply
  call r s = (status_ok (network r s).0, (network r s).1)

  -- post
  unfoldable pub post : String → String → Exec S Reply
  unfolding status_ok
  post path body = do r ← lift (sign_request c priv ts (post_request path body)); call r

  unfoldable pub remote_list : Exec S (List String)
  unfolding post decoded
  remote_list = do reply ← post "/v1/sync/list" json.nothing; lift (decoded (json.read_list reply))

  unfoldable pub remote_pull : PullRequest → Exec S PullResponse
  unfolding post decoded
  remote_pull req = do
    reply ← post "/v1/sync/pull" (json.of_pull req)
    lift (decoded (json.read_pull reply))

  unfoldable pub remote_push : PushRequest → Exec S PushResponse
  unfolding post decoded
  remote_push req = do
    reply ← post "/v1/sync/push" (json.of_push req)
    lift (decoded (json.read_push reply))

  unfoldable pub remote_discover : Exec S (List DiscoverableThread)
  unfolding post decoded
  remote_discover = do
    reply ← post "/v1/discover" json.nothing
    lift (decoded (json.read_discovered reply))

  unfoldable pub request_access : Entry → Exec S (Unit {0})
  unfolding post decoded
  request_access e = do
    reply ← post "/v1/access/request" (json.of_entry e)
    lift (decoded (json.read_accepted reply))

  -- the transport that the sync client takes
  abbrev pub http_transport : Transport S
  http_transport = record { list = remote_list; pull = remote_pull; push = remote_push }
