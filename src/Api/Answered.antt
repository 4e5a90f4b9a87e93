-- ===== src/Api/Answered.antt =====
-- The transport against the server: a signed call is the call of the sync server as its signer.
use lamdis.Prelude.{String, ◌≡◌, ◌≢◌, refl, ap, ◌∙◌, false, Option, some, List, ℕ, arith}
use lamdis.Prelude.Eq.{◌==◌, string_eq}
use lamdis.Result.{Result, ok, err, refused_by_peer}
use lamdis.Exec.{continue, ◌>>=◌, lift}
use lamdis.Store.{Store}
use lamdis.Log.Crypto.{Crypto, CryptoLaws}
use lamdis.Perm.State.{Time}
use lamdis.Sync.Server.{PullRequest, PullResponse, PushRequest, PushResponse, pull, push}
use lamdis.Api.Auth.{Request, is_skewed, limit_text, max_body}
use lamdis.Api.Authentic.{own_id, signed, sign_request-signed, authenticate-signed}
use lamdis.Api.Handlers.{
  Decoders, Reply, pulled, pushed, handle_pull, handle_push, pull_decoded, push_decoded, pull_reply,
  push_reply, with_auth, admitted, route, dispatch, serve,
}
use lamdis.Api.Remote.{Encoders, post, post_request, status_ok, decoded, remote_pull, remote_push}

-- the result as the caller of a transport sees it
unfoldable pub seen_remotely {ℓ} : {A : Type ℓ} → Result A → Result A
seen_remotely (ok a) = ok a
seen_remotely (err x) = err refused_by_peer

module _ {S : Type 0} (c : Crypto) (laws : CryptoLaws c) (store : Store S)
    (parse_time : String → Option Time) (now : Time) (json : Decoders) (enc : Encoders)
    (priv : List ℕ) (self ts : String) (t : Time) (stamped : parse_time ts ≡ some t)
    (some_time : ts ≢ "") (recent : is_skewed now t ≡ false) where
  -- the network that takes each request to the server
  abbrev pub direct : Request → S → Option Reply × S
  direct r s = (
    some (serve c store parse_time now json self r s).0,
    (serve c store parse_time now json self r s).1,
  )

  abbrev pub me : String
  me = own_id c parse_time now laws priv

  sent : String → String → Request
  sent path body = signed c parse_time now laws priv ts (post_request path body)

  -- what the server does with a signed call
  serve-sent :
      (path body : String) (s : S)
      → (path == "/v1/node") ≡ false
      → limit_text max_body body ≡ body
      → serve c store parse_time now json self (sent path body) s
        ≡ dispatch c store parse_time now json
            (sent path body)
            (route c store parse_time now json path)
            s
  unfolding serve sent
  serve-sent path body s off fits = rw off refl

  -- a signed call that fits the limit reaches its handler as the signer's
  with_auth-sent :
      (next : String → String → S → Reply × S) (path body : String) (s : S)
      → limit_text max_body body ≡ body
      → with_auth c store parse_time now json next (sent path body) s ≡ next me body s
  unfolding with_auth admitted sent
  with_auth-sent next path body s fits = rw fits (
      rw
        (authenticate-signed c parse_time now laws priv (post_request path body) ts t stamped
          some_time recent)
        refl)

  abbrev heard : Reply × S → Result Reply × S
  heard r = (status_ok (some r.0), r.1)

  post-served :
      (next : String → String → S → Reply × S) (path body : String) (s : S)
      → route c store parse_time now json path ≡ some next
      → (path == "/v1/node") ≡ false
      → limit_text max_body body ≡ body
      → post c priv ts enc direct path body s ≡ heard (next me body s)
  unfolding post dispatch sent
  post-served next path body s at off fits =
      rw (sign_request-signed c parse_time now laws priv (post_request path body) ts, lift, ◌>>=◌)
        (ap heard (
          serve-sent path body s off fits
          ∙ reached (ap (λ o. dispatch c store parse_time now json (sent path body) o s) at)))
    where
      reached :
          {r : Reply × S}
          → r ≡ with_auth c store parse_time now json next (sent path body) s
          → r ≡ next me body s
      reached h = h ∙ with_auth-sent next path body s fits

  at_pull :
      route c store parse_time now json "/v1/sync/pull"
      ≡ some (handle_pull c store parse_time now json)
  unfolding route
  at_pull = refl

  at_push :
      route c store parse_time now json "/v1/sync/push"
      ≡ some (handle_push c store parse_time now json)
  unfolding route
  at_push = refl

  pull_heard :
      (r : Result PullResponse) (s : S)
      → ((resp : PullResponse) → r ≡ ok resp → enc.read_pull (pulled resp) ≡ some resp)
      → continue {S = S}
          (status_ok (some (pull_reply r)))
          (λ reply. lift {S = S} (decoded (enc.read_pull reply)))
          s
        ≡ (seen_remotely r, s)
  unfolding status_ok pull_reply decoded seen_remotely
  pull_heard (ok resp) s answers = rw (answers resp refl) refl
  pull_heard (err x) s answers = refl

  push_heard :
      (r : Result PushResponse) (s : S)
      → ((resp : PushResponse) → r ≡ ok resp → enc.read_push (pushed resp) ≡ some resp)
      → continue {S = S}
          (status_ok (some (push_reply r)))
          (λ reply. lift {S = S} (decoded (enc.read_push reply)))
          s
        ≡ (seen_remotely r, s)
  unfolding status_ok push_reply decoded seen_remotely
  push_heard (ok resp) s answers = rw (answers resp refl) refl
  push_heard (err x) s answers = refl

  -- If a pull is signed with a recent time stamp, fits the size limit, and JSON carries it and its answer,
  -- then the transport's pull returns what the sync server's pull gives the signer, and leaves the state
  -- that it leaves; a refusal comes back as an error.
  pub remote_pull-pull :
      (req : PullRequest) (s : S)
      → req.thread ≢ ""
      → limit_text max_body (enc.of_pull req) ≡ enc.of_pull req
      → json.to_pull (enc.of_pull req) ≡ some req
      → ((resp : PullResponse)
          → (pull store parse_time now me req s).0 ≡ ok resp
          → enc.read_pull (pulled resp) ≡ some resp)
      → remote_pull c priv ts enc direct req s ≡ (
        seen_remotely (pull store parse_time now me req s).0,
        (pull store parse_time now me req s).1,
      )
  unfolding remote_pull handle_pull pull_decoded
  remote_pull-pull req s named fits reads answers =
      let filled : (req.thread == "") ≡ false =
        ground (arith, named, string_eq.beq_iff req.thread "") in
      rw
        (
          post-served (handle_pull c store parse_time now json) "/v1/sync/pull" (enc.of_pull req) s
              at_pull refl fits,
          ◌>>=◌,
        )
        (rw reads (
          rw filled (
            pull_heard (pull store parse_time now me req s).0 (pull store parse_time now me req s).1
              answers)))

  -- If a push is signed with a recent time stamp, fits the size limit, and JSON carries it and its answer,
  -- then the transport's push returns what the sync server's push gives the signer, and leaves the state
  -- that it leaves; a refusal comes back as an error.
  pub remote_push-push :
      (req : PushRequest) (s : S)
      → req.thread ≢ ""
      → limit_text max_body (enc.of_push req) ≡ enc.of_push req
      → json.to_push (enc.of_push req) ≡ some req
      → ((resp : PushResponse)
          → (push store parse_time now me req s).0 ≡ ok resp
          → enc.read_push (pushed resp) ≡ some resp)
      → remote_push c priv ts enc direct req s ≡ (
        seen_remotely (push store parse_time now me req s).0,
        (push store parse_time now me req s).1,
      )
  unfolding remote_push handle_push push_decoded
  remote_push-push req s named fits reads answers =
      let filled : (req.thread == "") ≡ false =
        ground (arith, named, string_eq.beq_iff req.thread "") in
      rw
        (
          post-served (handle_push c store parse_time now json) "/v1/sync/push" (enc.of_push req) s
              at_push refl fits,
          ◌>>=◌,
        )
        (rw reads (
          rw filled (
            push_heard (push store parse_time now me req s).0 (push store parse_time now me req s).1
              answers)))
