-- ===== src/Tests/Decisions.antt =====
-- The owner's decisions, over the driver.
use lamdis.Prelude.{
  suc, ◌<◌, String, ◌≡◌, ◌≢◌, refl, [], ◌∷◌, ◌++◌, none, some, arith, inl, inr, u64_mod, i64_mod,
  true, false,
}
use lamdis.Prelude.Eq.{ne_of_beq, string_eq}
use lamdis.Prelude.Lists.{All}
use lamdis.Prelude.Map.{Map, lookup, insert, has}
use lamdis.Result.{ok}
use lamdis.Log.Appended.{append-IsChained, new_thread_log-IsChained}
use lamdis.Log.ChainKey.{ChainKey, chain_key_eq}
use lamdis.Log.Entry.{Entry, kind_deny, kind_grant}
use lamdis.Log.Invariant.{IsChained}
use lamdis.Log.ThreadLog.{ThreadLog, ChainHead, new_thread_log, admit, append}
use lamdis.Perm.Apply.{fold}
use lamdis.Perm.Query.{lanes, effective_scopes, pending_requests}
use lamdis.Perm.State.{Time}
use lamdis.Store.Sqlite.{Sqlite, update_log}
use lamdis.Owner.Authority.{HasRoom, IsSteward, owner_id, stored}
use lamdis.Exec.{Exec}
use lamdis.Owner.CommandDenials.{IsDenied, run_denial-IsDenied}
use lamdis.Owner.Invocation.{invocation, run_denial}
use lamdis.Owner.Denies.{handle_decide-denies}
use lamdis.Owner.Grants.{handle_decide-grants}
use lamdis.Owner.Portal.{Decision, decide_reply, handle_decide, asked_for}
use lamdis.Owner.Resolve.{Peer, resolve_thread, resolve_who, is_prefix}
use lamdis.Tests.Calls.{some_day, stamp, own_genesis, own_log, own_node, thread_id-ne}
use lamdis.Tests.Fixtures.{zero_crypto, thread_id, ben}
use lamdis.Tests.Keys.{zero_laws}
use lamdis.Tests.Requests.{node}

abbrev pub answer_id : String
answer_id = "01ARZ3NDEKTSV4RRFFQ69G5FD0"

abbrev pub keep : ThreadLog → Sqlite → Sqlite
keep l s = update_log zero_crypto l.thread l s

append_own : append zero_crypto (new_thread_log thread_id) own_genesis ≡ ok own_log
unfolding append lamdis.Log.ThreadLog.append_new lamdis.Log.ThreadLog.append_again new_thread_log
    lookup lamdis.Log.ThreadLog.check_chain lamdis.Log.Envelope.validate
    lamdis.Log.Envelope.check_shape lamdis.Log.Envelope.is_version_zero lamdis.Log.Pattern.is_ulid
    lamdis.Log.Pattern.is_kind lamdis.Log.Entry.valid_lane lamdis.Log.Pattern.is_hash
    lamdis.Log.Pattern.is_sig lamdis.Log.Envelope.is_reserved lamdis.Log.Entry.core_kind
    lamdis.Log.Identity.public_key lamdis.Log.Envelope.check_behalf
    lamdis.Log.Envelope.canonical_bytes lamdis.Log.Canonical.canonical_body
    lamdis.Log.Envelope.verified lamdis.Log.Envelope.hex_decode lamdis.Log.Envelope.hash
    lamdis.Log.Envelope.hex_encode lamdis.Log.Base32.encode lamdis.Log.Base32.decode admit insert
append_own = refl

pub own_log-IsChained : IsChained zero_crypto own_log
own_log-IsChained =
    append-IsChained zero_crypto (new_thread_log thread_id) own_genesis
      (new_thread_log-IsChained zero_crypto thread_id) (omega arith) own_log append_own

own_numbers : (k : ChainKey) (h : ChainHead) → lookup k own_log.heads ≡ some h → suc h.seq < u64_mod
unfolding admit new_thread_log insert lookup
own_numbers k h at = ground arith

pub own_small :
    (k : ChainKey) (h : ChainHead) → lookup k own_log.heads ≡ some h → suc h.seq < i64_mod
unfolding admit new_thread_log insert lookup
own_small k h at = ground arith

pub own_room : HasRoom own_log answer_id
unfolding admit new_thread_log insert lookup lamdis.Log.Pattern.is_ulid
own_room = record {
  thread = refl;
  id = refl;
  fresh = refl;
  clock = omega arith;
  number = λ k h at. own_numbers k h at;
}

pub own_found : node.thread thread_id own_node ≡ (ok own_log, own_node)
unfolding lamdis.Store.Sqlite.thread admit lamdis.Log.ThreadLog.insert_entry new_thread_log
own_found = refl

owner-IsSteward : IsSteward (fold some_day own_log.thread own_log.entries) (owner_id zero_crypto [])
unfolding lookup fold admit lamdis.Log.ThreadLog.insert_entry new_thread_log lamdis.Perm.Apply.apply
    lamdis.Perm.Apply.apply_thread lamdis.Json.Bodies.decode_thread insert lamdis.Log.Base32.encode
owner-IsSteward = record { steward = refl; person = refl }

ben_plain : has (fold some_day own_log.thread own_log.entries).stewards ben ≡ false
unfolding lookup fold admit lamdis.Log.ThreadLog.insert_entry new_thread_log lamdis.Perm.Apply.apply
    lamdis.Perm.Apply.apply_thread lamdis.Json.Bodies.decode_thread insert lamdis.Log.Base32.encode
ben_plain = refl

ben_own : lookup ben (fold some_day own_log.thread own_log.entries).delegations ≡ none
unfolding lookup fold admit lamdis.Log.ThreadLog.insert_entry new_thread_log lamdis.Perm.Apply.apply
    lamdis.Perm.Apply.apply_thread lamdis.Json.Bodies.decode_thread insert lamdis.Log.Base32.encode
ben_own = refl

ben-ne : ben ≢ ""
ben-ne = ne_of_beq {K = String} ben "" refl

abbrev refusal : Decision
refusal = record { thread = thread_id; principal = ben; decision = "deny"; scopes = [] }

abbrev approval : Decision
approval = record {
  thread = thread_id;
  principal = ben;
  decision = "approve";
  scopes = "read" ∷ [];
}

handle_decide-denies_example :
    (e : Entry) × (l' : ThreadLog) × (handle_decide zero_crypto node keep [] answer_id stamp
        some_day
        (some refusal)
        own_node
      ≡ (
        decide_reply (stored e (node.append_entries (e ∷ []) (keep l' own_node)).0),
        (node.append_entries (e ∷ []) (keep l' own_node)).1,
      ))
    × IsChained zero_crypto l'
    × (l'.entries ≡ own_log.entries ++ e ∷ [])
    × ((now : Time) → lanes (fold some_day own_log.thread l'.entries) ben now ≡ [])
handle_decide-denies_example =
    handle_decide-denies zero_crypto zero_laws node keep [] answer_id stamp some_day refusal
      kind_deny own_node own_node own_log (inl (refl, refl)) thread_id-ne ben-ne own_found
      own_log-IsChained own_room owner-IsSteward ben_plain ben_own

approval_scopes :
    asked_for ben (pending_requests (fold some_day thread_id own_log.entries)) ("read" ∷ []) ""
    ≡ ("read" ∷ [], "")
unfolding lookup fold admit lamdis.Log.ThreadLog.insert_entry new_thread_log lamdis.Perm.Apply.apply
    lamdis.Perm.Apply.apply_thread lamdis.Json.Bodies.decode_thread insert lamdis.Log.Base32.encode
    pending_requests asked_for
approval_scopes = refl

valid_read : lamdis.Owner.Control.all_valid ("read" ∷ []) ≡ true
unfolding lamdis.Owner.Control.all_valid lamdis.Perm.Scope.valid_scope
valid_read = refl

handle_decide-grants_example :
    (e : Entry) × (l' : ThreadLog) × (handle_decide zero_crypto node keep [] answer_id stamp
        some_day
        (some approval)
        own_node
      ≡ (
        decide_reply (stored e (node.append_entries (e ∷ []) (keep l' own_node)).0),
        (node.append_entries (e ∷ []) (keep l' own_node)).1,
      ))
    × IsChained zero_crypto l'
    × (l'.entries ≡ own_log.entries ++ e ∷ [])
    × ((now : Time)
        → All
            (λ x. has (effective_scopes (fold some_day own_log.thread l'.entries) ben now) x ≡ true)
            ("read" ∷ []))
handle_decide-grants_example =
    handle_decide-grants zero_crypto zero_laws node keep [] answer_id stamp some_day approval
      ("read" ∷ []) "" own_node own_node own_log refl approval_scopes refl valid_read thread_id-ne
      ben-ne own_found own_log-IsChained own_room owner-IsSteward ben_own

abbrev same : String → String
same s = s

abbrev known : Map String Peer
known = ("ben", record { url = "http://ben"; principal = ben }) ∷ []

listed : node.threads own_node ≡ (ok (thread_id ∷ []), own_node)
unfolding lamdis.Store.Sqlite.threads
listed = refl

resolved : resolve_thread node same same "01ARZ" own_node ≡ (ok thread_id, own_node)
unfolding resolve_thread lamdis.Store.Sqlite.threads lamdis.Owner.Resolve.is_match is_prefix
    lamdis.Owner.Resolve.pick lamdis.Store.Sqlite.thread admit lamdis.Log.ThreadLog.insert_entry
    new_thread_log lookup
resolved = refl

named : resolve_who known "ben" ≡ ok ben
unfolding resolve_who lookup
named = refl

run_denial-IsDenied_example :
    (run : Exec Sqlite String) × (run_denial zero_crypto node keep
        (ok [])
        answer_id
        stamp
        same
        same
        known
        (invocation ("revoke" ∷ "01ARZ" ∷ "ben" ∷ []))
      ≡ some run)
    × IsDenied zero_crypto node keep some_day
        (owner_id zero_crypto [])
        "core.revoke"
        ben
        own_log
        own_node
        (run own_node)
run_denial-IsDenied_example =
    run_denial-IsDenied zero_crypto zero_laws node keep [] answer_id stamp some_day same same known
      "revoke" "core.revoke" "01ARZ" "ben" thread_id ben own_node own_node own_node own_log
      (inr (refl, refl)) resolved named own_found own_log-IsChained own_room owner-IsSteward
      ben_plain ben_own
