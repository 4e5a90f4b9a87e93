-- ===== src/Tests/Durability.antt =====
-- The driver and the tools over it, from an empty database on.
use lamdis.Prelude.{
  true, false, ◌⊎◌, ◌<◌, String, ◌≡◌, ◌≢◌, refl, sym, ap, ◌∙◌, subst, [], ◌∷◌, List, arith, u64_mod,
}
use lamdis.Prelude.Eq.{ne_of_beq, string_eq}
use lamdis.Prelude.Lists.{In, here, there, All}
use lamdis.Prelude.Map.{lookup, insert}
use lamdis.Result.{Result, ok, err, not_stored}
use lamdis.Prelude.{false, ◌⊎◌, i64_mod}
use lamdis.Log.ChainKey.{chain_key_eq}
use lamdis.Log.Entry.{Entry}
use lamdis.Log.ThreadLog.{ThreadLog, admit, new_thread_log, append}
use lamdis.Store.Sqlite.{
  Row, Sqlite, new_sqlite, append_entry, append_entries, thread, thread_log, refuses, id_stored,
}
use lamdis.Store.Unstored.{append_entry-unstored}
use lamdis.Store.Coherent.{IsCoherent, new_sqlite-IsCoherent, restart}
use lamdis.Store.Batches.{OwnIds, IsCoherent-after, append_entries-IsCoherent}
use lamdis.Store.Restarted.{
  IsServed, entries_reply, thread-restart, append_entries-IsServed, append_entry-stored_id,
}
use lamdis.Prelude.Sort.{insertion_sort}
use lamdis.Log.Entry.{genesis_prev}
use lamdis.Owner.Authority.{owner_id}
use lamdis.Mcp.Tools.{post_draft, post_entry}
use lamdis.Mcp.Posted.{posted, IsPosted, post_entry-IsPosted}
use lamdis.Mcp.Kept.{keep_cached, CanStore, IsKept, post_entry-IsKept}
use lamdis.Tests.Calls.{own_genesis, own_log, own_node, stamp}
use lamdis.Tests.Decisions.{answer_id, keep, own_found, own_log-IsChained, own_room, own_small}
use lamdis.Tests.Keys.{zero_laws}
use lamdis.Tests.Requests.{node}
use lamdis.Tests.Fixtures.{zero_crypto, thread_id}

abbrev pub batch : List Entry
batch = own_genesis ∷ []

abbrev pub first_node : Sqlite
first_node = (append_entries zero_crypto batch new_sqlite).1

one_thread : (a b : Entry) → In a batch → In b batch → a.id ≡ b.id → a.thread ≡ b.thread
one_thread a b (here p) (here q) same =
    ap (λ (x : Entry). x.thread) p ∙ ap (λ (x : Entry). x.thread) (sym q)
one_thread a b (here p) (there j) same = elim j [ ]
one_thread a b (there i) j same = elim i [ ]

batch_own : OwnIds batch new_sqlite.rows
batch_own = record { batch = one_thread; table = λ e i r j q. elim j [ ] }

batch_small : All (λ e. e.seq < u64_mod) batch
batch_small = (omega arith, tt)

append_entries-IsCoherent_example :
    (((append_entries zero_crypto batch new_sqlite).0 ≡ err not_stored)
      ⊎ IsCoherent zero_crypto first_node)
    × IsCoherent zero_crypto (restart first_node)
append_entries-IsCoherent_example =
    append_entries-IsCoherent zero_crypto batch new_sqlite (new_sqlite-IsCoherent zero_crypto)
      batch_small batch_own

pub first_run : append_entries zero_crypto batch new_sqlite ≡ (
  ok tt,
  record {
    rows = record { rid = 1; entry = own_genesis } ∷ [];
    logs = (thread_id, record { log = own_log; max_rid = 1 }) ∷ [];
    write_fails = λ rows e. false;
  },
)
unfolding append_entries append_entry thread_log lookup lamdis.Store.Sqlite.rehydrate
    lamdis.Store.Sqlite.load_from lamdis.Store.Sqlite.put_log insert lamdis.Store.Sqlite.persist
    lamdis.Store.Sqlite.insert_row lamdis.Store.Sqlite.refuses lamdis.Store.Sqlite.update_log
    lamdis.Store.Sqlite.note_rid append lamdis.Log.ThreadLog.append_new
    lamdis.Log.ThreadLog.append_again new_thread_log lamdis.Log.ThreadLog.check_chain
    lamdis.Log.Envelope.validate lamdis.Log.Envelope.check_shape lamdis.Log.Envelope.is_version_zero
    lamdis.Log.Pattern.is_ulid lamdis.Log.Pattern.is_kind lamdis.Log.Entry.valid_lane
    lamdis.Log.Pattern.is_hash lamdis.Log.Pattern.is_sig lamdis.Log.Envelope.is_reserved
    lamdis.Log.Entry.core_kind lamdis.Log.Identity.public_key lamdis.Log.Envelope.check_behalf
    lamdis.Log.Envelope.canonical_bytes lamdis.Log.Canonical.canonical_body
    lamdis.Log.Envelope.verified lamdis.Log.Envelope.hex_decode lamdis.Log.Envelope.hash
    lamdis.Log.Envelope.hex_encode lamdis.Log.Base32.encode lamdis.Log.Base32.decode admit
first_run = refl

pub first_node-IsCoherent : IsCoherent zero_crypto first_node
first_node-IsCoherent =
    IsCoherent-after
      (append_entries-IsCoherent zero_crypto batch new_sqlite (new_sqlite-IsCoherent zero_crypto)
        batch_small batch_own).0
      (ap (λ (r : Result (Unit {0}) × Sqlite). r.0) first_run)

-- a number that database/sql refuses: the row is missing, and the cached log has the entry
abbrev late : Entry
late = record own_genesis { lamport = i64_mod }

abbrev late_log : ThreadLog
late_log = admit (new_thread_log thread_id) late genesis_prev

late_opened : (thread_log zero_crypto thread_id new_sqlite).0 ≡ ok (new_thread_log thread_id)
unfolding thread_log lookup lamdis.Store.Sqlite.rehydrate lamdis.Store.Sqlite.load_from
    lamdis.Store.Sqlite.entries_of insertion_sort
late_opened = refl

late_taken : append zero_crypto (new_thread_log thread_id) late ≡ ok late_log
unfolding append lamdis.Log.ThreadLog.append_new lamdis.Log.ThreadLog.append_again new_thread_log
    lookup lamdis.Log.ThreadLog.check_chain lamdis.Log.Envelope.validate
    lamdis.Log.Envelope.check_shape lamdis.Log.Envelope.is_version_zero lamdis.Log.Pattern.is_ulid
    lamdis.Log.Pattern.is_kind lamdis.Log.Entry.valid_lane lamdis.Log.Pattern.is_hash
    lamdis.Log.Pattern.is_sig lamdis.Log.Envelope.is_reserved lamdis.Log.Entry.core_kind
    lamdis.Log.Identity.public_key lamdis.Log.Envelope.check_behalf
    lamdis.Log.Envelope.canonical_bytes lamdis.Log.Canonical.canonical_body
    lamdis.Log.Envelope.verified lamdis.Log.Envelope.hex_decode lamdis.Log.Envelope.hash
    lamdis.Log.Envelope.hex_encode lamdis.Log.Base32.encode lamdis.Log.Base32.decode admit insert
late_taken = refl

late_refused : refuses new_sqlite late ≡ true
unfolding refuses
late_refused = refl

append_entry-unstored_example :
    ((append_entry zero_crypto late new_sqlite).0 ≡ err not_stored)
    × ((append_entry zero_crypto late new_sqlite).1.rows ≡ [])
    × ((thread_log zero_crypto thread_id (append_entry zero_crypto late new_sqlite).1).0
        ≡ ok late_log)
    × In late late_log.entries
append_entry-unstored_example =
    append_entry-unstored zero_crypto new_sqlite late (new_thread_log thread_id) late_log
      (new_sqlite-IsCoherent zero_crypto) late_opened late_taken (unfold id_stored in refl)
      late_refused

append_entries-IsServed_example :
    IsServed zero_crypto own_genesis
      (entries_reply (thread zero_crypto thread_id (restart first_node)).0)
append_entries-IsServed_example =
    append_entries-IsServed zero_crypto batch new_sqlite (new_sqlite-IsCoherent zero_crypto)
      batch_small batch_own (ap (λ (r : Result (Unit {0}) × Sqlite). r.0) first_run) own_genesis
      (here refl)

thread-restart_example :
    entries_reply (thread zero_crypto thread_id (restart first_node)).0
    ≡ entries_reply (thread zero_crypto thread_id first_node).0
thread-restart_example = thread-restart zero_crypto first_node thread_id first_node-IsCoherent

pub own_node-IsCoherent : IsCoherent zero_crypto own_node
own_node-IsCoherent =
    subst (IsCoherent zero_crypto) (ap (λ (r : Result (Unit {0}) × Sqlite). r.1) first_run)
      first_node-IsCoherent

-- an entry with the id of the thread's first, in another thread
abbrev other_id : String
other_id = "01ARZ3NDEKTSV4RRFFQ69G5FZ9"

abbrev elsewhere : Entry
elsewhere = record own_genesis { thread = other_id }

abbrev elsewhere_log : ThreadLog
elsewhere_log = admit (new_thread_log other_id) elsewhere genesis_prev

other_opened : (thread_log zero_crypto other_id own_node).0 ≡ ok (new_thread_log other_id)
unfolding thread_log lookup lamdis.Store.Sqlite.rehydrate lamdis.Store.Sqlite.load_from
    lamdis.Store.Sqlite.entries_of insertion_sort
other_opened = refl

other_taken : append zero_crypto (new_thread_log other_id) elsewhere ≡ ok elsewhere_log
unfolding append lamdis.Log.ThreadLog.append_new lamdis.Log.ThreadLog.append_again new_thread_log
    lookup lamdis.Log.ThreadLog.check_chain lamdis.Log.Envelope.validate
    lamdis.Log.Envelope.check_shape lamdis.Log.Envelope.is_version_zero lamdis.Log.Pattern.is_ulid
    lamdis.Log.Pattern.is_kind lamdis.Log.Entry.valid_lane lamdis.Log.Pattern.is_hash
    lamdis.Log.Pattern.is_sig lamdis.Log.Envelope.is_reserved lamdis.Log.Entry.core_kind
    lamdis.Log.Identity.public_key lamdis.Log.Envelope.check_behalf
    lamdis.Log.Envelope.canonical_bytes lamdis.Log.Canonical.canonical_body
    lamdis.Log.Envelope.verified lamdis.Log.Envelope.hex_decode lamdis.Log.Envelope.hash
    lamdis.Log.Envelope.hex_encode lamdis.Log.Base32.encode lamdis.Log.Base32.decode admit insert
other_taken = refl

append_entry-stored_id_example :
    ((append_entry zero_crypto elsewhere own_node).0 ≡ ok tt)
    × ((append_entry zero_crypto elsewhere own_node).1.rows ≡ own_node.rows)
append_entry-stored_id_example =
    append_entry-stored_id zero_crypto own_node elsewhere (record { rid = 1; entry = own_genesis })
      (new_thread_log other_id) elsewhere_log own_node-IsCoherent (here refl) refl other_opened
      other_taken

-- the tool post_entry on the owner's thread
first_id : (r : Row) → In r own_node.rows → r.entry.id ≢ answer_id
first_id r (here p) q =
    ne_of_beq {K = String} thread_id answer_id refl (ap (λ (x : Row). x.entry.id) (sym p) ∙ q)
first_id r (there i) q = elim i [ ]

post_entry-IsPosted_example :
    (e : Entry) × (l' : ThreadLog) × (post_entry zero_crypto node keep [] answer_id stamp thread_id
        "summary" "hello" own_node
      ≡ (
        posted e
            (post_draft "summary" "hello").lane
            (node.append_entries (e ∷ []) (keep l' own_node)).0,
        (node.append_entries (e ∷ []) (keep l' own_node)).1,
      ))
    × IsPosted zero_crypto own_log (owner_id zero_crypto []) "summary" "hello" e l'
post_entry-IsPosted_example =
    post_entry-IsPosted zero_crypto zero_laws node keep [] answer_id stamp thread_id "summary"
      "hello" own_node own_node own_log own_found own_log-IsChained own_room

answer_stored : CanStore own_log answer_id own_node
unfolding admit new_thread_log
answer_stored = record {
  clock = omega arith;
  number = λ k h at. own_small k h at;
  writes = λ e q. refl;
}

post_entry-IsKept_example :
    (e : Entry) × IsKept zero_crypto answer_id thread_id "summary" "hello" e (
      post_entry zero_crypto node
        (keep_cached zero_crypto)
        []
        answer_id
        stamp
        thread_id
        "summary"
        "hello"
        own_node)
post_entry-IsKept_example =
    post_entry-IsKept zero_crypto zero_laws [] answer_id stamp thread_id "summary" "hello" own_node
      own_log own_node-IsCoherent (ap (λ (r : Result ThreadLog × Sqlite). r.0) own_found) own_room
      first_id answer_stored
