-- ===== src/Tests/Fixtures.antt =====
-- The data of the runs: a cryptography that signs everything with zeros, three principals, and the
-- entries of a small thread.
use Prim.Native.String.{◌++◌}
use lamdis.Prelude.{ℕ, zero, suc, String, true, Option, none, List, [], ◌∷◌}
use lamdis.Prelude.Int.{pos}
use lamdis.Json.{RawMessage, Items, one, obj, str, arr, field, end, cons, nil}
use lamdis.Log.Crypto.{Crypto}
use lamdis.Log.Entry.{
  Entry, Lane, genesis_prev, lane_control, lane_content, kind_message, kind_thread, kind_grant,
  kind_deny, kind_membership, kind_delegation, kind_access_request,
}
use lamdis.Perm.State.{Time}

abbrev pub zeros : ℕ → List ℕ
zeros zero = []
zeros (suc n) = 0 ∷ zeros n

abbrev pub zero_crypto : Crypto
zero_crypto = record {
  sha256 = λ _. zeros 32;
  public = λ _. zeros 32;
  sign = λ _ _. zeros 64;
  verify = λ _ _ _. true;
}

abbrev pub no_time : String → Option Time
no_time _ = none

-- the principal with the key of zeros, and two others
abbrev pub anna : String
anna = "ed25519:aaaaaaaaaaaaaaaaaaaaaaaaaaaaaaaaaaaaaaaaaaaaaaaaaaaa"

abbrev pub ben : String
ben = "ed25519:aeaaaaaaaaaaaaaaaaaaaaaaaaaaaaaaaaaaaaaaaaaaaaaaaaaa"

abbrev pub cleo : String
cleo = "ed25519:aiaaaaaaaaaaaaaaaaaaaaaaaaaaaaaaaaaaaaaaaaaaaaaaaaaa"

abbrev pub thread_id : String
thread_id = "01ARZ3NDEKTSV4RRFFQ69G5FA0"

abbrev pub names : List String → Items
names [] = nil
names (s ∷ ss) = cons (str s) (names ss)

abbrev pub thread_body : RawMessage
thread_body =
    one (obj (field "stewards" (arr (names (anna ∷ []))) (field "title" (str "plan") end)))

abbrev pub grant_body : String → List String → RawMessage
grant_body who scopes =
    one (obj (field "principal" (str who) (field "scopes" (arr (names scopes)) end)))

abbrev pub entry_of : String → String → Lane → String → ℕ → ℕ → String → RawMessage → Entry
entry_of id kind lane author seq lamport prev body = record {
  v = pos 0;
  id = id;
  thread = thread_id;
  kind = kind;
  lane = lane;
  author = author;
  on_behalf_of = "";
  seq = seq;
  lamport = lamport;
  prev = prev;
  ts = "2026-01-01T00:00:00Z";
  refs = none;
  body = body;
  sig = genesis_prev ++ genesis_prev;
}

abbrev pub control_entry : String → String → String → ℕ → RawMessage → Entry
control_entry id kind author n body = entry_of id kind lane_control author n n genesis_prev body

abbrev pub genesis : Entry
genesis = control_entry thread_id kind_thread anna 1 thread_body

abbrev pub grant_ben : Entry
grant_ben =
    control_entry "01ARZ3NDEKTSV4RRFFQ69G5FA1" kind_grant anna 2
      (grant_body ben ("read" ∷ "contribute" ∷ []))

abbrev pub deny_ben : Entry
deny_ben = control_entry "01ARZ3NDEKTSV4RRFFQ69G5FA2" kind_deny anna 3 (grant_body ben [])

abbrev pub grant_again : Entry
grant_again =
    control_entry "01ARZ3NDEKTSV4RRFFQ69G5FA3" kind_grant anna 4
      (grant_body ben ("contribute" ∷ []))

abbrev pub other_thread : Entry
other_thread =
    control_entry "01ARZ3NDEKTSV4RRFFQ69G5FA4" kind_thread cleo 5
      (one (obj (field "stewards" (arr (names (cleo ∷ []))) end)))

abbrev pub grant_of_stranger : Entry
grant_of_stranger =
    control_entry "01ARZ3NDEKTSV4RRFFQ69G5FA5" kind_grant cleo 3 (grant_body cleo ("read" ∷ []))

abbrev pub delegation_body : String → RawMessage
delegation_body agent = one (obj (field "agent" (str agent) end))

-- a delegation that names the steward's key as the agent
abbrev pub delegate_anna : Entry
delegate_anna =
    control_entry "01ARZ3NDEKTSV4RRFFQ69G5FA6" kind_delegation cleo 2 (delegation_body anna)

abbrev pub delegate_cleo : Entry
delegate_cleo =
    control_entry "01ARZ3NDEKTSV4RRFFQ69G5FA7" kind_delegation ben 3 (delegation_body cleo)

abbrev pub remove_ben : Entry
remove_ben =
    control_entry "01ARZ3NDEKTSV4RRFFQ69G5FA8" kind_membership anna 3
      (one (obj (field "member" (str ben) (field "role" (str "removed") end))))

abbrev pub ask_anna : Entry
ask_anna =
    control_entry "01ARZ3NDEKTSV4RRFFQ69G5FA9" kind_access_request anna 3
      (one (obj (field "reason" (str "to help") end)))

abbrev pub message_ben : Entry
message_ben =
    entry_of "01ARZ3NDEKTSV4RRFFQ69G5FB0" kind_message lane_content ben 1 2 genesis_prev
      (one (obj (field "text" (str "hello") end)))

-- the same message in another thread
abbrev pub foreign_message : Entry
foreign_message = record message_ben { thread = "01ARZ3NDEKTSV4RRFFQ69G5FC0" }
