-- ===== src/Mcp/Tools.antt =====
-- mcp/server.go: the tools but search_context, over any store. The person's key, the fresh id and the time
-- are arguments, as are the case mapping of strings, the quoting of fmt and the network.
use Prim.Native.String.{◌++◌ as append}
use lamdis.Prelude.{
  ℕ, zero, suc, ◌-◌, String, false, Option, none, some, List, [], ◌∷◌, ltb, if◌then◌else◌,
}
use lamdis.Prelude.Eq.{◌==◌, string_eq}
use lamdis.Prelude.Int.{ℤ}
use lamdis.Prelude.Lists.{length}
use lamdis.Prelude.Map.{Map, lookup}
use lamdis.Json.{one, obj, str, field, end}
use lamdis.Result.{Result, ok, err, not_a_peer}
use lamdis.Exec.{Exec, pure, lift, ◌>>=◌, ◌>>◌}
use lamdis.Store.{Store}
use lamdis.Log.Author.{Draft, author_append, new_thread_with}
use lamdis.Log.Crypto.{Crypto}
use lamdis.Log.Entry.{
  Entry, Lane, lane_control, lane_summary, lane_content, kind_message, kind_summary,
}
use lamdis.Log.ThreadLog.{ThreadLog}
use lamdis.Perm.State.{Time}
use lamdis.Sync.Client.{build_access_request}
use lamdis.Sync.Server.{DiscoverableThread}
use lamdis.Embed.Vectors.{positive_or}
use lamdis.Owner.Commands.{find_target}
use lamdis.Owner.Threads.{titles, all_pending}
use lamdis.Owner.Words.{split_commas, trim_space}
use lamdis.Owner.Resolve.{Peer}
use lamdis.Mcp.Words.{join, concat, or_text, entry_lines, request_lines, title_lines, peer_words}

-- whoami
unfoldable pub whoami : String → Map String String → String
unfolding join concat peer_words
whoami self peers = concat ("principal: " ∷ self ∷ "\npeers: " ∷ join ", " (peer_words peers) ∷ [])

-- `entries[len(entries)-limit:]`
unfoldable pub drop {ℓ} : {A : Type ℓ} → ℕ → List A → List A
drop zero xs = xs
drop (suc n) [] = []
drop (suc n) (x ∷ xs) = drop n xs

unfoldable pub newest {ℓ} : {A : Type ℓ} → ℕ → List A → List A
unfolding drop
newest limit xs = if ltb limit (length xs) then drop (length xs - limit) xs else xs

-- the lanes that read_thread and search_context ask for
abbrev pub all_lanes : List Lane
all_lanes = lane_control ∷ lane_summary ∷ lane_content ∷ []

-- the draft of post_entry: a message, or a summary where the agent asks for that lane
unfoldable pub post_draft : String → String → Draft
post_draft lane text = record {
  kind = if lane == "summary" then kind_summary else kind_message;
  lane = if lane == "summary" then lane_summary else lane_content;
  on_behalf_of = "";
  refs = none;
  body = some (one (obj (field "text" (str text) end)));
}

-- the scopes of request_access: the pieces between commas, trimmed and not looked at
unfoldable pub trim_all : List String → List String
unfolding trim_space
trim_all [] = []
trim_all (s ∷ rest) = trim_space s ∷ trim_all rest

unfoldable pub known_peer : Option String → Result String
known_peer none = err not_a_peer
known_peer (some url) = ok url

-- list_threads
unfoldable pub list_threads : {S : Type 0} → Store S → Exec S String
unfolding title_lines concat or_text titles
list_threads store = do
  ids ← store.threads
  (λ s. (
    ok (
        or_text "no threads yet — create one with create_thread"
          (concat (title_lines (titles store ids s).0))),
    (titles store ids s).1,
  ))

-- read_thread, over the store's Entries
unfoldable pub read_thread :
    {S : Type 0} → (String → List Lane → Exec S (List Entry)) → String → ℤ → Exec S String
unfolding newest positive_or entry_lines concat
read_thread entries thread limit = do
  es ← entries thread all_lanes
  pure (concat (entry_lines (newest (positive_or 50 limit) es)))

-- list_access_requests
unfoldable pub list_access_requests :
    {S : Type 0} → Store S → (String → Option Time) → (String → String) → Exec S String
unfolding request_lines concat or_text all_pending
list_access_requests store parse_time quote = do
  ids ← store.threads
  (λ s. (
    ok (
        or_text "no pending requests"
          (concat (request_lines quote (all_pending store parse_time ids s).0))),
    (all_pending store parse_time ids s).1,
  ))

module _ {S : Type 0} (c : Crypto) (store : Store S) (keep_log : ThreadLog → S → S) (priv : List ℕ)
    (id ts : String) where
  -- post_entry
  unfoldable pub post_entry : String → String → String → Exec S String
  unfolding post_draft concat
  post_entry thread lane text = do
    tl ← store.thread thread
    r ← lift (author_append c priv tl id ts (post_draft lane text))
    (λ s. (ok tt, keep_log r.0 s))
    store.append_entries (r.1 ∷ [])
    pure (concat ("posted " ∷ r.1.id ∷ " to " ∷ (post_draft lane text).lane ∷ " lane" ∷ []))

  -- create_thread
  unfoldable pub create_thread : String → Exec S String
  create_thread title = do
    r ← lift (new_thread_with c priv title false id ts)
    store.append_entries r.0.entries
    pure (append "created thread " r.1.id)

  -- request_access, over a transport for each address
  unfoldable pub request_access :
      (String → Exec S (List DiscoverableThread))
      → (String → Entry → Exec S (Unit {0}))
      → (String → String)
      → Map String String
      → String
      → String
      → String
      → String
      → Exec S String
  unfolding known_peer find_target trim_all split_commas concat
  request_access discover ask lower peers peer thread scopes reason = do
    url ← lift (known_peer (lookup peer peers))
    threads ← discover url
    target ← lift (find_target lower thread threads "")
    e ← lift (build_access_request c priv target (trim_all (split_commas scopes)) reason id ts)
    ask url e
    pure (
        concat (
          "requested " ∷ scopes ∷ " on " ∷ peer ∷ "'s thread — a human on their side decides" ∷ []))

-- the peers of the tools, which have an address alone
unfoldable pub addressed : Map String String → Map String Peer
addressed [] = []
addressed ((name, url) ∷ rest) = (name, record { url = url; principal = "" }) ∷ addressed rest

-- sync_peers: for each peer, what its line tells; none where there is no peer
unfoldable pub sync_peers :
    {S : Type 0}
    → (Map String Peer → S → List (String × Result (ℕ × ℕ)) × S)
    → Map String String
    → S
    → List (String × Result (ℕ × ℕ)) × S
unfolding addressed
sync_peers round [] s = ([], s)
sync_peers round (p ∷ peers) s = round (addressed (p ∷ peers)) s
