-- ===== src/Tests/Calls.antt =====
-- Signed calls to a server over the driver.
use lamdis.Prelude.{
  false, String, ◌≡◌, ◌≢◌, refl, [], ◌∷◌, List, Option, none, some, arith, false, inl, inr, ℕ,
}
use lamdis.Prelude.Eq.{ne_of_beq, string_eq}
use lamdis.Prelude.Int.{pos}
use lamdis.Result.{Error, ok, err}
use lamdis.Json.{one, obj, str, arr, field, end}
use lamdis.Log.Entry.{Entry}
use lamdis.Log.ThreadLog.{ThreadLog, new_thread_log, admit}
use lamdis.Log.Entry.{genesis_prev}
use lamdis.Perm.State.{Time}
use lamdis.Store.Sqlite.{Sqlite}
use lamdis.Sync.Server.{PullRequest, PullResponse, PushRequest, PushResponse, pull, push}
use lamdis.Api.Auth.{Request, authenticate, sign_request, is_skewed, limit_text, max_body}
use lamdis.Api.Authentic.{
  IsAuthentic, authenticate-IsAuthentic, authenticate-sign_request, signed, own_id,
}
use lamdis.Api.Handlers.{Decoders, Reply, pulled, pushed, failed, handle_pull, serve, read_request}
use lamdis.Api.Remote.{Encoders, post_request, remote_pull}
use lamdis.Api.Replies.{serve_unauthorized, handle_pull-not_found}
use lamdis.Api.Answered.{remote_pull-pull, direct, seen_remotely}
use lamdis.Tests.Fixtures.{zero_crypto, names, thread_id, genesis, cleo}
use lamdis.Perm.Query.{lanes}
use lamdis.Sync.Pulled.{open_lanes}
use lamdis.Tests.Logs.{second_log}
use lamdis.Tests.Keys.{zero_laws}
use lamdis.Tests.Requests.{node, held, found_thread}

abbrev pub some_day : String → Option Time
some_day _ = some (pos 0)

abbrev pub stamp : String
stamp = "2026-01-01T00:00:00Z"

abbrev pub owner : String
owner = own_id zero_crypto some_day (pos 7) zero_laws []

abbrev pub own_genesis : Entry
own_genesis = record genesis {
  author = owner;
  body = one (obj (field "stewards" (arr (names (owner ∷ []))) end));
}

abbrev pub own_log : ThreadLog
own_log = admit (new_thread_log thread_id) own_genesis genesis_prev

abbrev pub own_node : Sqlite
own_node = record {
  rows = record { rid = 1; entry = own_genesis } ∷ [];
  logs = (thread_id, record { log = own_log; max_rid = 1 }) ∷ [];
  write_fails = λ rows e. false;
}

abbrev ask_all : PullRequest
ask_all = record { thread = thread_id; have = [] }

abbrev give_one : PushRequest
give_one = record { thread = thread_id; entries = own_genesis ∷ [] }

abbrev decoders : Decoders
decoders = record {
  to_pull = λ _. some ask_all;
  to_push = λ _. some give_one;
  to_entry = λ _. none;
}

abbrev only_pulled : Reply → Option PullResponse
only_pulled (pulled resp) = some resp
only_pulled _ = none

abbrev only_pushed : Reply → Option PushResponse
only_pushed (pushed resp) = some resp
only_pushed _ = none

abbrev encoders : Encoders
encoders = record {
  nothing = "{}";
  of_pull = λ _. "{}";
  of_push = λ _. "{}";
  of_entry = λ _. "{}";
  read_list = λ _. none;
  read_pull = only_pulled;
  read_push = only_pushed;
  read_discovered = λ _. none;
  read_accepted = λ _. none;
}

abbrev ask_request : Request
ask_request =
    signed zero_crypto some_day (pos 7) zero_laws [] stamp (post_request "/v1/sync/pull" "{}")

ask_authentic : authenticate zero_crypto some_day (pos 7) ask_request ≡ ok owner
unfolding authenticate lamdis.Log.Base32.encode lamdis.Log.Envelope.hex_encode
    lamdis.Api.Auth.is_skewed lamdis.Log.Identity.public_key lamdis.Log.Envelope.hex_decode
ask_authentic = refl

authenticate-IsAuthentic_example : IsAuthentic zero_crypto some_day (pos 7) ask_request owner
authenticate-IsAuthentic_example =
    authenticate-IsAuthentic zero_crypto some_day (pos 7) ask_request owner ask_authentic

ask_signed : sign_request zero_crypto [] stamp (post_request "/v1/sync/pull" "{}") ≡ ok ask_request
unfolding sign_request lamdis.Log.Identity.principal_id
ask_signed = refl

stamp-ne : stamp ≢ ""
stamp-ne = ne_of_beq {K = String} stamp "" refl

pub thread_id-ne : thread_id ≢ ""
thread_id-ne = ne_of_beq {K = String} thread_id "" refl

not_skewed : is_skewed (pos 7) (pos 0) ≡ false
unfolding is_skewed
not_skewed = refl

authenticate-sign_request_example : authenticate zero_crypto some_day (pos 7) ask_request ≡ ok owner
authenticate-sign_request_example =
    authenticate-sign_request zero_crypto some_day (pos 7) zero_laws []
      (post_request "/v1/sync/pull" "{}") ask_request stamp (pos 0) ask_signed stamp-ne refl
      not_skewed

pull_path-ne : ◌≢◌ {A = String} "/v1/sync/pull" "/v1/node"
pull_path-ne = ne_of_beq {K = String} "/v1/sync/pull" "/v1/node" refl

closed : open_lanes node some_day (pos 7) cleo ask_all held second_log ≡ []
unfolding lamdis.Sync.Server.collect lamdis.Log.ThreadLog.after lamdis.Log.ThreadLog.in_chain_after
    lamdis.Log.ThreadLog.head_seqs lamdis.Store.Sqlite.thread new_thread_log admit
    lamdis.Prelude.Map.lookup lamdis.Prelude.Map.insert lamdis.Prelude.Map.delete
    lamdis.Log.ThreadLog.insert_entry lamdis.Log.ThreadLog.not_below lamdis.Log.ThreadLog.insert_at
    lamdis.Log.ThreadLog.search_between lamdis.Log.Entry.less lanes lamdis.Perm.Scope.lanes_of
    lamdis.Perm.Query.effective_scopes lamdis.Perm.Query.scopes_of_person
    lamdis.Perm.Query.copy_scopes lamdis.Perm.Query.expired lamdis.Perm.Query.person_of
    lamdis.Perm.Apply.fold lamdis.Perm.Apply.apply lamdis.Perm.Apply.apply_grant
    lamdis.Perm.Apply.apply_thread lamdis.Perm.Apply.apply_deny lamdis.Json.Bodies.decode_thread
    lamdis.Json.Bodies.decode_grant lamdis.Perm.Scope.valid_scope lamdis.Perm.Query.acts_for
    lamdis.Perm.Query.may_contribute lamdis.Perm.Query.may_person_contribute
closed = refl

fits_limit : limit_text max_body "{}" ≡ "{}"
unfolding limit_text
fits_limit = refl

remote_pull-pull_example :
    remote_pull zero_crypto [] stamp encoders
      (direct zero_crypto zero_laws node some_day
        (pos 7)
        decoders
        encoders
        []
        ""
        stamp
        (pos 0)
        refl
        stamp-ne
        not_skewed)
      ask_all
      own_node
    ≡ (
      seen_remotely (pull node some_day (pos 7) owner ask_all own_node).0,
      (pull node some_day (pos 7) owner ask_all own_node).1,
    )
remote_pull-pull_example =
    remote_pull-pull zero_crypto zero_laws node some_day (pos 7) decoders encoders [] "" stamp
      (pos 0) refl stamp-ne not_skewed ask_all own_node thread_id-ne fits_limit refl
      (λ resp h. refl)

-- the owner may read the thread, so the calls do not only compare refusals
pull_granted :
    (pull node some_day (pos 7) owner ask_all own_node).0
    ≡ ok (record {
      entries = own_genesis ∷ [];
      heads = record { author = owner; lane = own_genesis.lane; seq = 1 } ∷ [];
    })
unfolding pull lamdis.Log.Base32.encode lamdis.Sync.Server.collect lamdis.Log.ThreadLog.after
    lamdis.Log.ThreadLog.in_chain_after lamdis.Log.ThreadLog.head_seqs lamdis.Store.Sqlite.thread
    new_thread_log admit lamdis.Prelude.Map.lookup lamdis.Prelude.Map.insert
    lamdis.Prelude.Map.delete lamdis.Log.ThreadLog.insert_entry lamdis.Log.ThreadLog.not_below
    lamdis.Log.ThreadLog.insert_at lamdis.Log.ThreadLog.search_between lamdis.Log.Entry.less lanes
    lamdis.Perm.Scope.lanes_of lamdis.Perm.Query.effective_scopes lamdis.Perm.Query.scopes_of_person
    lamdis.Perm.Query.copy_scopes lamdis.Perm.Query.expired lamdis.Perm.Query.person_of
    lamdis.Perm.Apply.fold lamdis.Perm.Apply.apply lamdis.Perm.Apply.apply_grant
    lamdis.Perm.Apply.apply_thread lamdis.Perm.Apply.apply_deny lamdis.Json.Bodies.decode_thread
    lamdis.Json.Bodies.decode_grant lamdis.Perm.Scope.valid_scope lamdis.Perm.Query.acts_for
    lamdis.Perm.Query.may_contribute lamdis.Perm.Query.may_person_contribute
pull_granted = refl

serve_unauthorized_example :
    (status : ℕ) × (text : String) × ((x : Error) (s : Sqlite)
      → authenticate zero_crypto some_day (pos 7) (read_request (post_request "/v1/sync/pull" "{}"))
        ≡ err x
      → serve zero_crypto node some_day (pos 7) decoders "" (post_request "/v1/sync/pull" "{}") s
        ≡ (failed status text, s))
serve_unauthorized_example =
    serve_unauthorized zero_crypto node some_day (pos 7) decoders ""
      (post_request "/v1/sync/pull" "{}") pull_path-ne

handle_pull-not_found_example :
    (handle_pull zero_crypto node some_day (pos 7) decoders cleo "{}" held).0
    ≡ failed 404 "not found"
handle_pull-not_found_example =
    handle_pull-not_found zero_crypto node some_day (pos 7) decoders cleo "{}" ask_all held refl
      thread_id-ne (inr (second_log, found_thread, closed))
