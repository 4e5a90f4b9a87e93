-- ===== src/Api/Replies.antt =====
-- What a caller learns from a reply that refuses it.
use lamdis.Prelude.{
  String, ◌≡◌, ◌≢◌, ◌⊎◌, inl, inr, refl, false, Option, none, some, ℕ, [], arith, Bool-cases,
}
use lamdis.Prelude.Eq.{◌==◌, string_eq}
use lamdis.Result.{Error, ok, err}
use lamdis.Exec.{◌>>=◌}
use lamdis.Store.{Store}
use lamdis.Log.Crypto.{Crypto}
use lamdis.Log.ThreadLog.{ThreadLog}
use lamdis.Perm.State.{Time}
use lamdis.Sync.Server.{PullRequest, pull, visible_lanes}
use lamdis.Sync.Pulled.{open_lanes, pull_hidden}
use lamdis.Api.Auth.{Request, authenticate}
use lamdis.Api.Handlers.{
  Decoders, failed, Handler, handle_pull, pull_decoded, pull_reply, with_auth, admitted,
  read_request, route, dispatch, serve,
}

module _ {S : Type 0} (c : Crypto) (store : Store S) (parse_time : String → Option Time)
    (now : Time) (json : Decoders) where
  -- A request that is not authenticated gets, off the public route of the node's identity, one fixed
  -- failure that depends neither on what the store holds nor on which check failed, and changes
  -- nothing.
  pub serve_unauthorized :
      (self : String) (r : Request)
      → r.path ≢ "/v1/node"
      → (status : ℕ) × (text : String) × ((x : Error) (s : S)
          → authenticate c parse_time now (read_request r) ≡ err x
          → serve c store parse_time now json self r s ≡ (failed status text, s))
  unfolding serve
  serve_unauthorized self r off = rw off_node (by_route (route c store parse_time now json r.path))
    where
      off_node : (r.path == "/v1/node") ≡ false
      off_node = ground (arith, off, string_eq.beq_iff r.path "/v1/node")

      by_route :
          (o : Option (Handler S))
          → (status : ℕ) × (text : String) × ((x : Error) (s : S)
              → authenticate c parse_time now (read_request r) ≡ err x
              → dispatch c store parse_time now json r o s ≡ (failed status text, s))
      by_route none = (404, "404 page not found", λ x s h. unfold dispatch in refl)
      by_route (some next) = elim (Bool-cases (r.method == "POST")) [
        | inl q ↦
            (401, "unauthorized", λ x s h. unfold dispatch with_auth admitted in rw q (rw h refl))
        | inr q ↦ (405, "Method Not Allowed", λ x s h. unfold dispatch in rw q refl)
      ]

  pull_missing :
      (principal : String) (req : PullRequest) (x : Error) (s : S)
      → (store.thread req.thread s).0 ≡ err x
      → (pull store parse_time now principal req s).0 ≡ err x
  unfolding pull visible_lanes
  pull_missing principal req x s h = rw (h, ◌>>=◌) refl

  -- A thread that the store does not hold, and one of which the caller may replicate no lane, get the
  -- same reply to a pull: 404, not found.
  pub handle_pull-not_found :
      (principal body : String) (req : PullRequest) (s : S)
      → json.to_pull body ≡ some req
      → req.thread ≢ ""
      → ((x : Error) × ((store.thread req.thread s).0 ≡ err x))
        ⊎ ((tl : ThreadLog) × ((store.thread req.thread s).0 ≡ ok tl)
            × (open_lanes store parse_time now principal req s tl ≡ []))
      → (handle_pull c store parse_time now json principal body s).0 ≡ failed 404 "not found"
  unfolding handle_pull pull_decoded pull_reply
  handle_pull-not_found principal body req s read named (inl (x, missing)) =
      let filled : (req.thread == "") ≡ false =
        ground (arith, named, string_eq.beq_iff req.thread "") in
      rw read (rw filled (rw (pull_missing principal req x s missing) refl))
  handle_pull-not_found principal body req s read named (inr (tl, found, none_)) =
      let filled : (req.thread == "") ≡ false =
        ground (arith, named, string_eq.beq_iff req.thread "") in
      rw read
        (rw filled (rw (pull_hidden store parse_time now principal req s tl found none_) refl))
