-- ===== src/Tests/Requests.antt =====
-- Requests to a server over the driver.
use lamdis.Prelude.{false, ◌≡◌, refl, [], ◌∷◌, List}
use lamdis.Prelude.Int.{pos}
use lamdis.Prelude.Lists.{All}
use lamdis.Prelude.Map.{lookup, insert, delete, empty}
use mathlib.Core.List.{Perm}
use lamdis.Result.{ok, err, thread_not_found}
use lamdis.Log.Entry.{Entry, Lane, lane_control}
use lamdis.Log.ThreadLog.{
  ThreadLog, append, admit, append_new, append_again, new_thread_log, insert_entry, check_chain,
  head_seqs,
}
use lamdis.Log.Envelope.{validate}
use lamdis.Perm.Apply.{fold, apply, apply_grant, apply_thread, apply_deny}
use lamdis.Perm.Query.{
  lanes, acts_for, may_contribute, effective_scopes, person_of, scopes_of_person,
}
use lamdis.Perm.Scope.{valid_scope, lanes_of}
use lamdis.Store.{Store}
use lamdis.Store.Sqlite.{Sqlite, Row, new_sqlite, sqlite_store, thread, append_entries}
use lamdis.Sync.Order.{order_for_append}
use lamdis.Sync.Ordering.{order_for_append-IsOrdered, AllMayPrecede}
use lamdis.Sync.Server.{
  PullRequest, PullResponse, PushRequest, PushResponse, pull, push, submit_access_request, have_map,
}
use lamdis.Sync.Pulled.{MaySend, pull-MaySend}
use lamdis.Sync.Pushed.{MayPush, push-MayPush, IsOpening, push-IsOpening}
use lamdis.Sync.Submitted.{MaySubmit, submit_access_request-MaySubmit}
use lamdis.Tests.Fixtures.{
  zero_crypto, no_time, genesis, grant_ben, deny_ben, ask_anna, thread_id, anna, ben, cleo,
}
use lamdis.Tests.Logs.{second_log}

abbrev pub node : Store Sqlite
node = sqlite_store zero_crypto

abbrev pub held : Sqlite
held = record {
  rows = record { rid = 1; entry = genesis } ∷ record { rid = 2; entry = grant_ben } ∷ [];
  logs = (thread_id, record { log = second_log; max_rid = 2 }) ∷ [];
  write_fails = λ rows e. false;
}

pub found_thread : (node.thread thread_id held).0 ≡ ok second_log
unfolding thread new_thread_log admit lookup insert delete insert_entry
    lamdis.Log.ThreadLog.not_below lamdis.Log.ThreadLog.insert_at
    lamdis.Log.ThreadLog.search_between lamdis.Log.Entry.less
found_thread = refl

abbrev ask : PullRequest
ask = record {
  thread = thread_id;
  have = record { author = anna; lane = lane_control; seq = 1 } ∷ [];
}

abbrev answer : PullResponse
answer = record {
  entries = grant_ben ∷ [];
  heads = record { author = anna; lane = lane_control; seq = 2 } ∷ [];
}

pull_run : (pull node no_time (pos 0) ben ask held).0 ≡ ok answer
unfolding pull lamdis.Sync.Server.collect lamdis.Log.ThreadLog.after
    lamdis.Log.ThreadLog.in_chain_after head_seqs thread new_thread_log admit lookup insert delete
    insert_entry lamdis.Log.ThreadLog.not_below lamdis.Log.ThreadLog.insert_at
    lamdis.Log.ThreadLog.search_between lamdis.Log.Entry.less lanes lanes_of effective_scopes
    scopes_of_person lamdis.Perm.Query.copy_scopes lamdis.Perm.Query.expired person_of fold apply
    apply_grant apply_thread apply_deny lamdis.Json.Bodies.decode_thread
    lamdis.Json.Bodies.decode_grant valid_scope acts_for may_contribute
    lamdis.Perm.Query.may_person_contribute
pull_run = refl

abbrev pub denying : PushRequest
denying = record { thread = thread_id; entries = deny_ben ∷ [] }

pub push_run : (push node no_time (pos 0) anna denying held).0 ≡ ok (record { accepted = 1 })
unfolding push order_for_append lamdis.Sync.Order.less_append thread new_thread_log admit lookup
    insert delete insert_entry lamdis.Log.ThreadLog.not_below lamdis.Log.ThreadLog.insert_at
    lamdis.Log.ThreadLog.search_between lamdis.Log.Entry.less lanes lanes_of effective_scopes
    scopes_of_person lamdis.Perm.Query.copy_scopes lamdis.Perm.Query.expired person_of fold apply
    apply_grant apply_thread apply_deny lamdis.Json.Bodies.decode_thread
    lamdis.Json.Bodies.decode_grant valid_scope acts_for may_contribute
    lamdis.Perm.Query.may_person_contribute append_entries lamdis.Store.Sqlite.load_from append
    append_new append_again check_chain validate lamdis.Log.Envelope.check_shape
    lamdis.Log.Envelope.is_version_zero lamdis.Log.Pattern.is_ulid lamdis.Log.Pattern.is_kind
    lamdis.Log.Entry.valid_lane lamdis.Log.Pattern.is_hash lamdis.Log.Pattern.is_sig
    lamdis.Log.Envelope.is_reserved lamdis.Log.Entry.core_kind lamdis.Log.Identity.public_key
    lamdis.Log.Envelope.check_behalf lamdis.Log.Envelope.canonical_bytes
    lamdis.Log.Canonical.canonical_body lamdis.Log.Envelope.verified lamdis.Log.Envelope.hex_decode
    lamdis.Log.Envelope.hash lamdis.Log.Envelope.hex_encode lamdis.Store.Sqlite.update_log
    lamdis.Sync.Server.check_all
push_run = refl

abbrev opening : PushRequest
opening = record { thread = thread_id; entries = genesis ∷ [] }

opening_absent : (node.thread thread_id new_sqlite).0 ≡ err thread_not_found
unfolding thread new_thread_log lamdis.Store.Sqlite.load_from lookup insert
opening_absent = refl

opening_run : (push node no_time (pos 0) anna opening new_sqlite).0 ≡ ok (record { accepted = 1 })
unfolding push order_for_append lamdis.Sync.Order.less_append thread new_thread_log admit lookup
    insert delete insert_entry lamdis.Log.ThreadLog.not_below lamdis.Log.ThreadLog.insert_at
    lamdis.Log.ThreadLog.search_between lamdis.Log.Entry.less lanes lanes_of effective_scopes
    scopes_of_person lamdis.Perm.Query.copy_scopes lamdis.Perm.Query.expired person_of fold apply
    apply_grant apply_thread apply_deny lamdis.Json.Bodies.decode_thread
    lamdis.Json.Bodies.decode_grant valid_scope acts_for may_contribute
    lamdis.Perm.Query.may_person_contribute append_entries lamdis.Store.Sqlite.load_from append
    append_new append_again check_chain validate lamdis.Log.Envelope.check_shape
    lamdis.Log.Envelope.is_version_zero lamdis.Log.Pattern.is_ulid lamdis.Log.Pattern.is_kind
    lamdis.Log.Entry.valid_lane lamdis.Log.Pattern.is_hash lamdis.Log.Pattern.is_sig
    lamdis.Log.Envelope.is_reserved lamdis.Log.Entry.core_kind lamdis.Log.Identity.public_key
    lamdis.Log.Envelope.check_behalf lamdis.Log.Envelope.canonical_bytes
    lamdis.Log.Canonical.canonical_body lamdis.Log.Envelope.verified lamdis.Log.Envelope.hex_decode
    lamdis.Log.Envelope.hash lamdis.Log.Envelope.hex_encode lamdis.Store.Sqlite.update_log
    lamdis.Sync.Server.check_all
opening_run = refl

submit_run : (submit_access_request node no_time (pos 0) anna ask_anna held).0 ≡ ok tt
unfolding submit_access_request thread new_thread_log admit lookup insert delete insert_entry
    lamdis.Log.ThreadLog.not_below lamdis.Log.ThreadLog.insert_at
    lamdis.Log.ThreadLog.search_between lamdis.Log.Entry.less lanes lanes_of effective_scopes
    scopes_of_person lamdis.Perm.Query.copy_scopes lamdis.Perm.Query.expired person_of fold apply
    apply_grant apply_thread apply_deny lamdis.Json.Bodies.decode_thread
    lamdis.Json.Bodies.decode_grant valid_scope acts_for may_contribute
    lamdis.Perm.Query.may_person_contribute append_entries lamdis.Store.Sqlite.load_from append
    append_new append_again check_chain validate lamdis.Log.Envelope.check_shape
    lamdis.Log.Envelope.is_version_zero lamdis.Log.Pattern.is_ulid lamdis.Log.Pattern.is_kind
    lamdis.Log.Entry.valid_lane lamdis.Log.Pattern.is_hash lamdis.Log.Pattern.is_sig
    lamdis.Log.Envelope.is_reserved lamdis.Log.Entry.core_kind lamdis.Log.Identity.public_key
    lamdis.Log.Envelope.check_behalf lamdis.Log.Envelope.canonical_bytes
    lamdis.Log.Canonical.canonical_body lamdis.Log.Envelope.verified lamdis.Log.Envelope.hex_decode
    lamdis.Log.Envelope.hash lamdis.Log.Envelope.hex_encode lamdis.Store.Sqlite.update_log
submit_run = refl

pull-MaySend_example :
    (tl : ThreadLog) × ((node.thread thread_id held).0 ≡ ok tl)
    × All
        (MaySend
          (lanes (fold no_time thread_id tl.entries) ben (pos 0))
          (have_map thread_id ask.have empty))
        answer.entries
pull-MaySend_example = pull-MaySend node no_time (pos 0) ben ask held answer pull_run

closed_to_cleo : lanes (fold no_time thread_id second_log.entries) cleo (pos 0) ≡ []
unfolding lamdis.Sync.Server.collect lamdis.Log.ThreadLog.after lamdis.Log.ThreadLog.in_chain_after
    head_seqs thread new_thread_log admit lookup insert delete insert_entry
    lamdis.Log.ThreadLog.not_below lamdis.Log.ThreadLog.insert_at
    lamdis.Log.ThreadLog.search_between lamdis.Log.Entry.less lanes lanes_of effective_scopes
    scopes_of_person lamdis.Perm.Query.copy_scopes lamdis.Perm.Query.expired person_of fold apply
    apply_grant apply_thread apply_deny lamdis.Json.Bodies.decode_thread
    lamdis.Json.Bodies.decode_grant valid_scope acts_for may_contribute
    lamdis.Perm.Query.may_person_contribute
closed_to_cleo = refl

push-MayPush_example :
    All (MayPush (fold no_time thread_id second_log.entries) anna thread_id) (deny_ben ∷ [])
push-MayPush_example =
    push-MayPush node no_time anna denying (pos 0) held second_log (record { accepted = 1 })
      found_thread push_run

push-IsOpening_example :
    (e : Entry) × (es : List Entry) × (tl : ThreadLog) × (order_for_append (genesis ∷ []) thread_id
      ≡ e ∷ es)
    × IsOpening node no_time anna opening e
    × ((node.thread thread_id
          (node.append_entries (e ∷ []) (node.thread thread_id new_sqlite).1).1).0
        ≡ ok tl)
    × All (MayPush (fold no_time thread_id tl.entries) anna thread_id) es
push-IsOpening_example =
    push-IsOpening node no_time anna opening (pos 0) new_sqlite thread_not_found
      (record { accepted = 1 }) opening_absent opening_run

submit_access_request-MaySubmit_example :
    (tl : ThreadLog) × ((node.thread thread_id held).0 ≡ ok tl)
    × MaySubmit (fold no_time thread_id tl.entries) (pos 0) anna ask_anna
    × ((node.append_entries (ask_anna ∷ []) (node.thread thread_id held).1).0 ≡ ok tt)
submit_access_request-MaySubmit_example =
    submit_access_request-MaySubmit node no_time (pos 0) anna ask_anna held submit_run

order_for_append-IsOrdered_example :
    Perm (order_for_append (grant_ben ∷ genesis ∷ []) thread_id) (grant_ben ∷ genesis ∷ [])
    × AllMayPrecede thread_id (order_for_append (grant_ben ∷ genesis ∷ []) thread_id)
order_for_append-IsOrdered_example = order_for_append-IsOrdered (grant_ben ∷ genesis ∷ []) thread_id
