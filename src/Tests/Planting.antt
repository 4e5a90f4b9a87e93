-- ===== src/Tests/Planting.antt =====
-- A stranger pushes a thread's opening entry into the owner's thread.
use lamdis.Prelude.{
  some, ◌<◌, String, ◌≡◌, ◌≢◌, refl, sym, ap, ◌∙◌, true, false, [], ◌∷◌, ◌++◌, List, arith,
}
use lamdis.Prelude.Eq.{ne_of_beq, string_eq}
use lamdis.Prelude.Int.{pos}
use lamdis.Prelude.Lists.{In, here, there}
use lamdis.Prelude.Map.{has, lookup}
use lamdis.Prelude.Sort.{insertion_sort}
use lamdis.Json.{one, obj, arr, field, end}
use lamdis.Json.Bodies.{ThreadBody, decode_thread}
use lamdis.Result.{Result, ok, err, thread_not_found}
use lamdis.Log.ChainKey.{ChainKey}
use lamdis.Log.Entry.{Entry, kind_thread, genesis_prev, lane_control}
use lamdis.Log.Envelope.{validate}
use lamdis.Log.ThreadLog.{ThreadLog, new_thread_log}
use lamdis.Perm.Apply.{fold}
use lamdis.Store.Sqlite.{Row, Sqlite, thread, entries_of}
use lamdis.Store.Grown.{OpensChain}
use lamdis.Store.Restarted.{entries_reply}
use lamdis.Sync.Planted.{push-plants}
use lamdis.Sync.Server.{push}
use lamdis.Tests.Calls.{some_day, own_genesis, own_log, own_node, owner}
use lamdis.Tests.Decisions.{own_found}
use lamdis.Tests.Durability.{own_node-IsCoherent}
use lamdis.Tests.Fixtures.{zero_crypto, names, thread_id, ben, entry_of}
use lamdis.Tests.Requests.{node}
use lamdis.Prelude.{subst, u64_mod}
use lamdis.Prelude.Lists.{All}
use lamdis.Prelude.Map.{insert}
use lamdis.Log.ThreadLog.{append, admit}
use lamdis.Store.Batches.{OwnIds, IsCoherent-after, append_entries-IsCoherent}
use lamdis.Store.Coherent.{IsCoherent, new_sqlite-IsCoherent, restart}
use lamdis.Store.Restarted.{IsServed}
use lamdis.Store.Sqlite.{new_sqlite, append_entry, append_entries, thread_log}
use lamdis.Sync.Kept.{push-IsServed}
use lamdis.Tests.Fixtures.{genesis, grant_ben, deny_ben, anna, no_time}
use lamdis.Tests.Logs.{second_log}
use lamdis.Tests.Requests.{held, found_thread, denying, push_run}

abbrev unheard_of : String
unheard_of = "01ARZ3NDEKTSV4RRFFQ69G5FB7"

abbrev planted : Entry
planted =
    entry_of unheard_of kind_thread lane_control ben 1 5 genesis_prev
      (one (obj (field "stewards" (arr (names (ben ∷ []))) end)))

abbrev named : ThreadBody
named = record { stewards = ben ∷ []; title = ""; discoverable = false }

named_body : decode_thread planted.body ≡ some named
unfolding decode_thread
named_body = refl

planted_valid : validate zero_crypto planted ≡ ok tt
unfolding validate lamdis.Log.Envelope.check_shape lamdis.Log.Envelope.is_version_zero
    lamdis.Log.Pattern.is_ulid lamdis.Log.Pattern.is_kind lamdis.Log.Entry.valid_lane
    lamdis.Log.Pattern.is_hash lamdis.Log.Pattern.is_sig lamdis.Log.Envelope.is_reserved
    lamdis.Log.Entry.core_kind lamdis.Log.Identity.public_key lamdis.Log.Envelope.check_behalf
    lamdis.Log.Envelope.canonical_bytes lamdis.Log.Canonical.canonical_body
    lamdis.Log.Envelope.verified lamdis.Log.Envelope.hex_decode lamdis.Log.Base32.decode
planted_valid = refl

not_found : (thread zero_crypto unheard_of own_node).0 ≡ err thread_not_found
unfolding thread lamdis.Store.Sqlite.thread_log lookup lamdis.Store.Sqlite.rehydrate
    lamdis.Store.Sqlite.load_from entries_of insertion_sort new_thread_log
not_found = refl

own_rows : (x : Entry) → In x (entries_of thread_id own_node.rows) → x ≡ own_genesis
unfolding entries_of
own_rows x (here p) = p
own_rows x (there i) = elim i [ ]

ben-ne : owner ≢ ben
unfolding lamdis.Log.Base32.encode
ben-ne = ne_of_beq {K = String} owner ben refl

opens : OpensChain zero_crypto planted own_node
opens = record {
  first = record { valid = planted_valid; seq = refl; prev = refl };
  unused = λ r i q. unused r i q;
  unwritten = λ x i q.
      ben-ne
        (ap (λ (y : Entry). y.author) (sym (own_rows x i)) ∙ ap (λ (k : ChainKey). k.author) q);
  lamport = omega arith;
  writes = refl;
  newest = λ x i. newest x (ap (λ (y : Entry). y.lamport) (own_rows x i));
}
  where
    unused : (r : Row) → In r own_node.rows → r.entry.id ≢ unheard_of
    unused r (here p) q =
        ne_of_beq {K = String} thread_id unheard_of refl (ap (λ (x : Row). x.entry.id) (sym p) ∙ q)
    unused r (there i) q = elim i [ ]

    newest : (x : Entry) → x.lamport ≡ 1 → x.lamport < 5
    newest x q = omega (arith, q)

push-plants_example :
    (es : List Entry) × (entries_reply
        (thread zero_crypto thread_id
          (push node some_day
            (pos 7)
            ben
            (record { thread = unheard_of; entries = planted ∷ [] })
            own_node).1).0
      ≡ ok es)
    × (es ≡ own_log.entries ++ planted ∷ [])
    × (has (fold some_day thread_id es).stewards ben ≡ true)
push-plants_example =
    push-plants zero_crypto some_day (pos 7) ben unheard_of planted own_node thread_not_found
      own_log named ben own_node-IsCoherent not_found refl refl
      (ap (λ (r : Result ThreadLog × Sqlite). r.0) own_found) opens refl refl named_body (here refl)

-- a steward pushes a denial
two_small : All (λ (e : Entry). e.seq < u64_mod) (genesis ∷ grant_ben ∷ [])
two_small = (omega arith, (omega arith, tt))

two_thread : (e : Entry) → In e (genesis ∷ grant_ben ∷ []) → e.thread ≡ thread_id
two_thread e (here p) = ap (λ (x : Entry). x.thread) p
two_thread e (there (here p)) = ap (λ (x : Entry). x.thread) p
two_thread e (there (there i)) = elim i [ ]

two_own : OwnIds (genesis ∷ grant_ben ∷ []) new_sqlite.rows
two_own = record {
  batch = λ a b i j q. two_thread a i ∙ sym (two_thread b j);
  table = λ e i r j q. elim j [ ];
}

two_run : append_entries zero_crypto (genesis ∷ grant_ben ∷ []) new_sqlite ≡ (ok tt, held)
unfolding append_entries append_entry thread_log lookup lamdis.Store.Sqlite.rehydrate
    lamdis.Store.Sqlite.load_from lamdis.Store.Sqlite.put_log insert lamdis.Store.Sqlite.persist
    lamdis.Store.Sqlite.insert_row lamdis.Store.Sqlite.refuses lamdis.Store.Sqlite.update_log
    lamdis.Store.Sqlite.note_rid append lamdis.Log.ThreadLog.append_new
    lamdis.Log.ThreadLog.append_again new_thread_log lamdis.Log.ThreadLog.check_chain validate
    lamdis.Log.Envelope.check_shape lamdis.Log.Envelope.is_version_zero lamdis.Log.Pattern.is_ulid
    lamdis.Log.Pattern.is_kind lamdis.Log.Entry.valid_lane lamdis.Log.Pattern.is_hash
    lamdis.Log.Pattern.is_sig lamdis.Log.Envelope.is_reserved lamdis.Log.Entry.core_kind
    lamdis.Log.Identity.public_key lamdis.Log.Envelope.check_behalf
    lamdis.Log.Envelope.canonical_bytes lamdis.Log.Canonical.canonical_body
    lamdis.Log.Envelope.verified lamdis.Log.Envelope.hex_decode lamdis.Log.Envelope.hash
    lamdis.Log.Envelope.hex_encode lamdis.Log.Base32.decode admit
two_run = refl

held-IsCoherent : IsCoherent zero_crypto held
held-IsCoherent =
    subst (IsCoherent zero_crypto) (ap (λ (r : Result (Unit {0}) × Sqlite). r.1) two_run) (
      IsCoherent-after
        (append_entries-IsCoherent zero_crypto (genesis ∷ grant_ben ∷ []) new_sqlite
          (new_sqlite-IsCoherent zero_crypto) two_small two_own).0
        (ap (λ (r : Result (Unit {0}) × Sqlite). r.0) two_run))

held_thread : (r : Row) → In r held.rows → r.entry.thread ≡ thread_id
held_thread r (here p) = ap (λ (x : Row). x.entry.thread) p
held_thread r (there (here p)) = ap (λ (x : Row). x.entry.thread) p
held_thread r (there (there i)) = elim i [ ]

push-IsServed_example : IsServed zero_crypto deny_ben (
    entries_reply
      (thread zero_crypto thread_id (restart (push node no_time (pos 0) anna denying held).1)).0)
push-IsServed_example =
    push-IsServed zero_crypto no_time (pos 0) anna denying held second_log (record { accepted = 1 })
      held-IsCoherent (omega arith, tt) (λ e i r j q. held_thread r j) found_thread push_run
      deny_ben (here refl)
