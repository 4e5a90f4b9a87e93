-- ===== src/Tests/Clients.antt =====
-- The client against a peer, over the driver.
use lamdis.Prelude.{◌≡◌, refl, [], ◌∷◌, List}
use lamdis.Prelude.Eq.{ne_of_beq, string_eq}
use lamdis.Prelude.Lists.{All, length, keep}
use lamdis.Prelude.Map.{lookup, insert, delete, empty}
use lamdis.Result.{ok, thread_not_found}
use lamdis.Exec.{pure, fail}
use lamdis.Log.Entry.{Entry}
use lamdis.Log.Envelope.{validate}
use lamdis.Log.ThreadLog.{
  ThreadLog, append, admit, append_new, append_again, new_thread_log, insert_entry, check_chain,
}
use lamdis.Perm.Apply.{fold, apply, apply_grant, apply_thread, apply_deny}
use lamdis.Perm.Query.{may_contribute}
use lamdis.Perm.Scope.{valid_scope}
use lamdis.Store.Sqlite.{Sqlite, thread, append_entries}
use lamdis.Sync.Order.{order_for_append}
use lamdis.Sync.Server.{have_map}
use lamdis.Sync.Client.{
  Transport, Client, is_control, is_other, check_authors, ingest_control, ingest, offer, push_back,
}
use lamdis.Sync.Ingested.{IsAdmitted, ingest-IsAdmitted}
use lamdis.Sync.Offered.{MayPushBack, push_back-MayPushBack}
use lamdis.Tests.Fixtures.{no_time, deny_ben, message_ben, thread_id, anna}
use lamdis.Tests.Logs.{second_log}
use lamdis.Tests.Requests.{node, held, found_thread}

-- a peer that takes every batch
abbrev taker : Transport Sqlite
taker = record {
  list = pure [];
  pull = λ _. fail thread_not_found;
  push = λ req. pure (record { accepted = length req.entries });
}

abbrev anna_client : Client
anna_client = record { self = anna; self_keys = empty }

push_back-MayPushBack_example :
    (es : List Entry) × (push_back node taker no_time anna_client thread_id [] held
      ≡ offer taker thread_id es (node.thread thread_id held).1)
    × All
        (MayPushBack anna_client
          (fold no_time thread_id second_log.entries)
          (have_map thread_id [] empty))
        es
push_back-MayPushBack_example =
    push_back-MayPushBack node taker no_time anna_client thread_id [] held second_log
      (ne_of_beq anna "" refl) found_thread

abbrev received : List Entry
received = message_ben ∷ deny_ben ∷ []

ingest_run : (ingest node no_time thread_id received held).0 ≡ ok 2
unfolding ingest keep check_authors order_for_append lamdis.Sync.Order.less_append thread
    new_thread_log admit lookup insert delete insert_entry lamdis.Log.ThreadLog.not_below
    lamdis.Log.ThreadLog.insert_at lamdis.Log.ThreadLog.search_between lamdis.Log.Entry.less fold
    apply apply_grant apply_thread apply_deny lamdis.Json.Bodies.decode_thread
    lamdis.Json.Bodies.decode_grant valid_scope may_contribute lamdis.Perm.Query.person_of
    lamdis.Perm.Query.may_person_contribute lamdis.Perm.Query.in_window append_entries
    lamdis.Store.Sqlite.load_from append append_new append_again check_chain validate
    lamdis.Log.Envelope.check_shape lamdis.Log.Envelope.is_version_zero lamdis.Log.Pattern.is_ulid
    lamdis.Log.Pattern.is_kind lamdis.Log.Entry.valid_lane lamdis.Log.Pattern.is_hash
    lamdis.Log.Pattern.is_sig lamdis.Log.Envelope.is_reserved lamdis.Log.Entry.core_kind
    lamdis.Log.Identity.public_key lamdis.Log.Envelope.check_behalf
    lamdis.Log.Envelope.canonical_bytes lamdis.Log.Canonical.canonical_body
    lamdis.Log.Envelope.verified lamdis.Log.Envelope.hex_decode lamdis.Log.Envelope.hash
    lamdis.Log.Envelope.hex_encode lamdis.Store.Sqlite.update_log
ingest_run = refl

ingest-IsAdmitted_example :
    IsAdmitted node no_time thread_id
      (keep is_other (order_for_append received thread_id))
      (ingest_control node no_time (keep is_control (order_for_append received thread_id)) held).1
ingest-IsAdmitted_example = ingest-IsAdmitted node no_time thread_id received held 2 ingest_run
