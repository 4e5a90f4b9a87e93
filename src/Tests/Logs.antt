-- ===== src/Tests/Logs.antt =====
-- Appending to a thread's log.
use lamdis.Prelude.{◌≡◌, refl, [], ◌∷◌, arith}
use lamdis.Log.ChainKey.{ChainKey}
use lamdis.Log.Entry.{Entry, lane_control}
use lamdis.Tests.Fixtures.{anna}
use lamdis.Prelude.Map.{lookup, insert}
use lamdis.Result.{ok}
use lamdis.Log.Entry.{Entry, genesis_prev, lane_control}
use lamdis.Log.ThreadLog.{
  ThreadLog, new_thread_log, append, admit, append_new, append_again, check_chain,
}
use lamdis.Log.Envelope.{validate}
use lamdis.Log.Invariant.{IsChained}
use lamdis.Log.Appended.{append-IsChained, new_thread_log-IsChained}
use lamdis.Store.Sqlite.{load_from}
use lamdis.Tests.Fixtures.{zero_crypto, genesis, grant_ben, thread_id}

abbrev pub first_log : ThreadLog
first_log = admit (new_thread_log thread_id) genesis genesis_prev

abbrev pub second_log : ThreadLog
second_log = admit first_log grant_ben genesis_prev

append_first : append zero_crypto (new_thread_log thread_id) genesis ≡ ok first_log
unfolding append append_new append_again new_thread_log lookup check_chain validate
    lamdis.Log.Envelope.check_shape lamdis.Log.Envelope.is_version_zero lamdis.Log.Pattern.is_ulid
    lamdis.Log.Pattern.is_kind lamdis.Log.Entry.valid_lane lamdis.Log.Pattern.is_hash
    lamdis.Log.Pattern.is_sig lamdis.Log.Envelope.is_reserved lamdis.Log.Entry.core_kind
    lamdis.Log.Identity.public_key lamdis.Log.Envelope.check_behalf
    lamdis.Log.Envelope.canonical_bytes lamdis.Log.Canonical.canonical_body
    lamdis.Log.Envelope.verified lamdis.Log.Envelope.hex_decode lamdis.Log.Envelope.hash
    lamdis.Log.Envelope.hex_encode
append_first = refl

append_second : append zero_crypto first_log grant_ben ≡ ok second_log
unfolding append append_new append_again new_thread_log admit insert lookup check_chain validate
    lamdis.Log.Envelope.check_shape lamdis.Log.Envelope.is_version_zero lamdis.Log.Pattern.is_ulid
    lamdis.Log.Pattern.is_kind lamdis.Log.Entry.valid_lane lamdis.Log.Pattern.is_hash
    lamdis.Log.Pattern.is_sig lamdis.Log.Envelope.is_reserved lamdis.Log.Entry.core_kind
    lamdis.Log.Identity.public_key lamdis.Log.Envelope.check_behalf
    lamdis.Log.Envelope.canonical_bytes lamdis.Log.Canonical.canonical_body
    lamdis.Log.Envelope.verified lamdis.Log.Envelope.hex_decode lamdis.Log.Envelope.hash
    lamdis.Log.Envelope.hex_encode
append_second = refl

pub first_log-IsChained : IsChained zero_crypto first_log
first_log-IsChained =
    append-IsChained zero_crypto (new_thread_log thread_id) genesis
      (new_thread_log-IsChained zero_crypto thread_id) (omega arith) first_log append_first

append-IsChained_example : IsChained zero_crypto second_log
append-IsChained_example =
    append-IsChained zero_crypto first_log grant_ben first_log-IsChained (omega arith) second_log
      append_second

load_both :
    load_from zero_crypto (new_thread_log thread_id) (genesis ∷ grant_ben ∷ []) ≡ ok second_log
unfolding load_from
load_both = rw (load_from, append_first) (rw (load_from, append_second) refl)

abbrev anna_chain : ChainKey
anna_chain = record { thread = thread_id; author = anna; lane = lane_control }
