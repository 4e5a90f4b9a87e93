-- ===== src/Api/Handlers.antt =====
-- api/api.go: the routes and their handlers. What encoding/json makes of a request's body, and of a
-- body's text on the way out, are parameters.
use lamdis.Prelude.{ℕ, String, ◌||◌, Option, none, some, List, if◌then◌else◌}
use lamdis.Prelude.Eq.{◌==◌, string_eq}
use lamdis.Result.{Result, ok, err}
use lamdis.Exec.{Exec}
use lamdis.Store.{Store}
use lamdis.Log.Crypto.{Crypto}
use lamdis.Log.Entry.{Entry}
use lamdis.Perm.State.{Time}
use lamdis.Sync.Server.{
  PullRequest, PullResponse, PushRequest, PushResponse, DiscoverableThread, list, pull, push,
  discover, submit_access_request,
}
use lamdis.Api.Auth.{Request, authenticate, limit_text, max_body}

-- json.Unmarshal into the types that the handlers read
pub record Decoders : Type 0 where
  pub to_pull : String → Option PullRequest
  pub to_push : String → Option PushRequest
  pub to_entry : String → Option Entry

-- A reply: a failure by its status and text, or what is written as JSON.
pub data Reply : Type 0 where
  failed : ℕ → String → Reply
  node_info : String → Reply
  thread_list : List String → Reply
  pulled : PullResponse → Reply
  pushed : PushResponse → Reply
  discovered : List DiscoverableThread → Reply
  accepted : Reply

unfoldable pub list_reply : Result (List String) → Reply
list_reply (err x) = failed 500 "internal error"
list_reply (ok ids) = thread_list ids

-- Not-found and not-permitted are the same status.
unfoldable pub pull_reply : Result PullResponse → Reply
pull_reply (err x) = failed 404 "not found"
pull_reply (ok resp) = pulled resp

unfoldable pub push_reply : Result PushResponse → Reply
push_reply (err x) = failed 403 "rejected"
push_reply (ok resp) = pushed resp

unfoldable pub discover_reply : Result (List DiscoverableThread) → Reply
discover_reply (err x) = failed 500 "internal error"
discover_reply (ok threads) = discovered threads

unfoldable pub access_reply : Result (Unit {0}) → Reply
access_reply (err x) = failed 403 "rejected"
access_reply (ok u) = accepted

-- A handler replies, and does not fail.
abbrev pub Handler : Type 0 → Type 0
Handler S = String → String → S → Reply × S

-- the reply to the outcome of a call
abbrev pub answer {ℓ} : {S : Type 0} {A : Type ℓ} → (Result A → Reply) → Exec S A → S → Reply × S
answer f m s = (f (m s).0, (m s).1)

-- the request as far as its body is read
abbrev pub read_request : Request → Request
read_request r = record r { body = limit_text max_body r.body }

module _ {S : Type 0} (c : Crypto) (store : Store S) (parse_time : String → Option Time)
    (now : Time) (json : Decoders) where
  unfoldable pub handle_list : Handler S
  unfolding list_reply
  handle_list principal body = answer list_reply (list store parse_time now principal)

  unfoldable pub pull_decoded : String → Option PullRequest → S → Reply × S
  unfolding pull_reply
  pull_decoded principal none s = (failed 400 "bad request", s)
  pull_decoded principal (some req) s =
      if req.thread == ""
      then (failed 400 "bad request", s)
      else answer pull_reply (pull store parse_time now principal req) s

  unfoldable pub handle_pull : Handler S
  unfolding pull_decoded
  handle_pull principal body = pull_decoded principal (json.to_pull body)

  unfoldable pub push_decoded : String → Option PushRequest → S → Reply × S
  unfolding push_reply
  push_decoded principal none s = (failed 400 "bad request", s)
  push_decoded principal (some req) s =
      if req.thread == ""
      then (failed 400 "bad request", s)
      else answer push_reply (push store parse_time now principal req) s

  unfoldable pub handle_push : Handler S
  unfolding push_decoded
  handle_push principal body = push_decoded principal (json.to_push body)

  unfoldable pub handle_discover : Handler S
  unfolding discover_reply
  handle_discover principal body = answer discover_reply (discover store parse_time now principal)

  unfoldable pub access_decoded : String → Option Entry → S → Reply × S
  unfolding access_reply
  access_decoded principal none s = (failed 400 "bad request", s)
  access_decoded principal (some e) s =
      answer access_reply (submit_access_request store parse_time now principal e) s

  unfoldable pub handle_access_request : Handler S
  unfolding access_decoded
  handle_access_request principal body = access_decoded principal (json.to_entry body)

  unfoldable pub admitted : Handler S → Request → Result String → S → Reply × S
  admitted next r (err x) s = (failed 401 "unauthorized", s)
  admitted next r (ok principal) s = next principal r.body s

  -- withAuth: one message for every check that fails
  unfoldable pub with_auth : Handler S → Request → S → Reply × S
  unfolding admitted
  with_auth next r = admitted next (read_request r) (authenticate c parse_time now (read_request r))

  -- Handler: the routes of the mux, and what the mux replies off them
  unfoldable pub route : String → Option (Handler S)
  route path =
      if path == "/v1/sync/list"
      then some handle_list
      else if path == "/v1/sync/pull"
      then some handle_pull
      else if path == "/v1/sync/push"
      then some handle_push
      else if path == "/v1/discover"
      then some handle_discover
      else if path == "/v1/access/request"
      then some handle_access_request
      else none

  unfoldable pub dispatch : Request → Option (Handler S) → S → Reply × S
  unfolding with_auth
  dispatch r none s = (failed 404 "404 page not found", s)
  dispatch r (some next) s =
      if r.method == "POST" then with_auth next r s else (failed 405 "Method Not Allowed", s)

  unfoldable pub serve : String → Request → S → Reply × S
  unfolding dispatch route
  serve self r s =
      if r.path == "/v1/node"
      then (if r.method == "GET" || r.method == "HEAD"
          then (node_info self, s)
          else (failed 405 "Method Not Allowed", s))
      else dispatch r (route r.path) s
