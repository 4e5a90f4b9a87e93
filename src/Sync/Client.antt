-- ===== src/Sync/Client.antt =====
-- sync/sync.go: the client. The peer is a transport, whose calls act on the same state as the store:
-- it holds both ends. The counts that Go returns beside an error are left out.
use lamdis.Prelude.{
  ℕ, ◌+◌, String, Bool, ◌&&◌, ◌||◌, not, Option, List, [], ◌∷◌, ◌++◌, ltb, eqb, if◌then◌else◌,
}
use lamdis.Prelude.Eq.{◌==◌, string_eq}
use lamdis.Prelude.Lists.{length, keep}
use lamdis.Prelude.Map.{Map, empty, insert, has}
use lamdis.Result.{Result, ok, err, lacks_contribute}
use lamdis.Exec.{Exec, pure, lift, attempt, ◌>>=◌, ◌>>◌}
use lamdis.Store.{Store}
use lamdis.Json.{Items, one, obj, str, arr, field, end, cons, nil}
use lamdis.Log.Envelope.{sign_entry}
use lamdis.Log.Identity.{principal_id}
use lamdis.Log.Crypto.{Crypto}
use lamdis.Prelude.Int.{pos}
use lamdis.Log.Entry.{genesis_prev, kind_access_request}
use lamdis.Prelude.{none}
use lamdis.Log.ChainKey.{ChainKey}
use lamdis.Log.Entry.{Entry, lane_control}
use lamdis.Log.ThreadLog.{ThreadLog, head_seqs, after}
use lamdis.Perm.Apply.{fold}
use lamdis.Perm.Query.{may_contribute}
use lamdis.Perm.State.{Time, State}
use lamdis.Sync.Order.{order_for_append}
use lamdis.Sync.Server.{
  Head, PullRequest, PullResponse, PushRequest, PushResponse, have_map, seq_or_zero,
}

pub record Transport (S : Type 0) : Type 0 where
  pub list : Exec S (List String)
  pub pull : PullRequest → Exec S PullResponse
  pub push : PushRequest → Exec S PushResponse

-- the client's principal, and its delegated keys
pub record Client : Type 0 where
  pub self : String
  pub self_keys : Map String Bool

-- actsAsSelf
unfoldable pub acts_as_self : Client → String → Bool
acts_as_self c author = author == c.self || has c.self_keys author

-- the heads that a pull reports
unfoldable pub head_list : Map ChainKey ℕ → List Head
head_list [] = []
head_list ((k, seq) ∷ rest) =
    record { author = k.author; lane = k.lane; seq = seq } ∷ head_list rest

-- the heads of the local log, none where there is none
unfoldable pub own_heads : Result ThreadLog → List Head
unfolding head_list
own_heads (err x) = []
own_heads (ok tl) = head_list (head_seqs tl.heads)

-- the heads of an answer, none where the peer refuses
unfoldable pub heads_of : Result PullResponse → List Head
heads_of (err x) = []
heads_of (ok resp) = resp.heads

abbrev pub is_control : Entry → Bool
is_control e = e.lane == lane_control

abbrev pub is_other : Entry → Bool
is_other e = not (e.lane == lane_control)

-- the loop of SyncThread over entries of other lanes
unfoldable pub check_authors : State → List Entry → Result (Unit {0})
check_authors st [] = ok tt
check_authors st (e ∷ es) =
    let rest = check_authors st es in
    if may_contribute st e.author e.lamport then rest else err lacks_contribute

-- the loop over the local chains, for those that may travel
unfoldable pub offer_from :
    (ChainKey → Bool) → ThreadLog → Map ChainKey ℕ → Map ChainKey ℕ → List Entry
unfolding seq_or_zero
offer_from travels tl peer [] = []
offer_from travels tl peer ((k, seq) ∷ heads) =
    let rest = offer_from travels tl peer heads in
    if travels k && ltb (seq_or_zero peer k) seq
    then after tl k (seq_or_zero peer k) ++ rest
    else rest

-- which chains pushBack offers: own chains, control only of a steward
unfoldable pub travels_back : Client → State → ChainKey → Bool
unfolding acts_as_self
travels_back c st k =
    acts_as_self c k.author && not (k.lane == lane_control && not (has st.stewards k.author))

-- which chains ShareThread offers: own chains
unfoldable pub travels_out : Client → ChainKey → Bool
unfolding acts_as_self
travels_out c k = acts_as_self c k.author

module _ {S : Type 0} (store : Store S) (parse_time : String → Option Time) where
  unfoldable pub ingest_control : List Entry → Exec S (Unit {0})
  ingest_control es = if eqb (length es) 0 then pure tt else store.append_entries es

  unfoldable pub ingest_others : String → List Entry → Exec S (Unit {0})
  unfolding check_authors
  ingest_others thread es = if eqb (length es) 0 then pure tt else do
    tl ← store.thread thread
    lift (check_authors (fold parse_time thread tl.entries) es)
    store.append_entries es

  -- SyncThread: what it does with the entries of an answer
  unfoldable pub ingest : String → List Entry → Exec S ℕ
  unfolding ingest_control ingest_others keep
  ingest thread entries =
      if eqb (length entries) 0
      then pure 0
      else (let ordered = order_for_append entries thread in
          do
            ingest_control (keep is_control ordered)
            ingest_others thread (keep is_other ordered)
            pure (length ordered))

-- the offer of a batch, if there is one
module _ {S : Type 0} (peer : Transport S) where
  unfoldable pub offer : String → List Entry → Exec S ℕ
  offer thread entries =
      if eqb (length entries) 0
      then pure 0
      else do resp ← peer.push (record { thread = thread; entries = entries }); pure resp.accepted

module _ {S : Type 0} (store : Store S) (peer : Transport S) (parse_time : String → Option Time)
    (c : Client) where
  unfoldable pub push_back_on : String → List Head → Result ThreadLog → Exec S ℕ
  unfolding offer offer_from travels_back
  push_back_on thread heads (err x) = pure 0
  push_back_on thread heads (ok tl) = offer peer thread (
      offer_from (travels_back c (fold parse_time thread tl.entries)) tl
        (have_map thread heads empty) (head_seqs tl.heads))

  -- pushBack
  unfoldable pub push_back : String → List Head → Exec S ℕ
  unfolding push_back_on
  push_back thread heads =
      if c.self == ""
      then pure 0
      else do found ← attempt (store.thread thread); push_back_on thread heads found

  -- SyncThread
  unfoldable pub sync_thread : String → Exec S ℕ
  unfolding ingest push_back own_heads
  sync_thread thread = do
    found ← attempt (store.thread thread)
    resp ← peer.pull (record { thread = thread; have = own_heads found })
    n ← ingest store parse_time thread resp.entries
    pushed ← push_back thread resp.heads
    pure (n + pushed)

  -- the loop of SyncAll
  unfoldable pub sync_each : List String → Map String ℕ → Exec S (Map String ℕ)
  unfolding sync_thread
  sync_each [] counts = pure counts
  sync_each (id ∷ ids) counts = do n ← sync_thread id; sync_each ids (insert id n counts)

  -- SyncAll
  unfoldable pub sync_all : Exec S (Map String ℕ)
  unfolding sync_each
  sync_all = do ids ← peer.list; sync_each ids empty

  -- ShareThread
  unfoldable pub share_thread : String → Exec S ℕ
  unfolding offer offer_from travels_out heads_of
  share_thread thread = do
    tl ← store.thread thread
    seen ← attempt (peer.pull (record { thread = thread; have = [] }))
    offer peer thread
        (offer_from (travels_out c) tl (have_map thread (heads_of seen) empty) (head_seqs tl.heads))

-- the names of a list of strings as JSON
unfoldable pub string_items : List String → Items
string_items [] = nil
string_items (x ∷ xs) = cons (str x) (string_items xs)

-- BuildAccessRequest: the entry that is signed
unfoldable pub request_entry : String → String → List String → String → String → String → Entry
unfolding string_items
request_entry pid thread scopes reason id ts = record {
  v = pos 0;
  id = id;
  thread = thread;
  kind = kind_access_request;
  lane = lane_control;
  author = pid;
  on_behalf_of = "";
  seq = 1;
  lamport = 1;
  prev = genesis_prev;
  ts = ts;
  refs = none;
  body = one (obj (field "reason" (str reason) (field "scopes" (arr (string_items scopes)) end)));
  sig = "";
}

-- BuildAccessRequest
unfoldable pub build_access_request :
    Crypto → List ℕ → String → List String → String → String → String → Result Entry
unfolding request_entry
build_access_request c priv thread scopes reason id ts = elim (principal_id (c.public priv)) [
  | ok pid ↦ sign_entry c priv (request_entry pid thread scopes reason id ts)
  | err x ↦ err x
]
