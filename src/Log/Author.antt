-- ===== src/Log/Author.antt =====
-- log/log.go: authoring. Ids, clocks and keys come from outside: a fresh ULID and the formatted time
-- are arguments.
use lamdis.Prelude.{String, Bool, Option, none, some, ltb, add64, if◌then◌else◌, List, ℕ}
use lamdis.Prelude.Int.{pos}
use lamdis.Prelude.Eq.{string_eq}
use lamdis.Prelude.Map.{lookup}
use lamdis.Json.{RawMessage, one, obj, str, bool, arr, field, end, cons, nil}
use lamdis.Prelude.{true}
use lamdis.Result.{Result, ok, err, ◌>>=◌, body_required}
use lamdis.Log.ChainKey.{ChainKey, chain_key_eq}
use lamdis.Log.Crypto.{Crypto}
use lamdis.Log.Entry.{Lane, Refs, Entry, genesis_prev, kind_thread, lane_control}
use lamdis.Log.Envelope.{sign_entry}
use lamdis.Log.Identity.{principal_id}
use lamdis.Log.ThreadLog.{ThreadLog, ChainHead, new_thread_log, append}

-- `body` is `none` for nil, and what the value marshals to otherwise.
pub record Draft : Type 0 where
  pub kind : String
  pub lane : Lane
  pub on_behalf_of : String
  pub refs : Option Refs
  pub body : Option RawMessage

-- toRawBody
unfoldable pub to_raw_body : Option RawMessage → Result RawMessage
to_raw_body none = err body_required
to_raw_body (some raw) = ok raw

-- `a.log.heads[key]`, the zero head where the chain is unknown
unfoldable pub head_or_zero : Option ChainHead → ChainHead
head_or_zero none = record { seq = 0; hash = "" }
head_or_zero (some h) = h

-- the entry that Author.Append signs
unfoldable pub draft_entry : ThreadLog → String → String → String → Draft → RawMessage → Entry
unfolding head_or_zero
draft_entry l pid id ts d body =
    let key : ChainKey = record { thread = l.thread; author = pid; lane = d.lane } in
    let head = head_or_zero (lookup key l.heads) in
    record {
      v = pos 0;
      id = id;
      thread = l.thread;
      kind = d.kind;
      lane = d.lane;
      author = pid;
      on_behalf_of = d.on_behalf_of;
      seq = add64 head.seq 1;
      lamport = add64 l.lamport 1;
      prev = if ltb 0 head.seq then head.hash else genesis_prev;
      ts = ts;
      refs = d.refs;
      body = body;
      sig = "";
    }

-- the genesis body: {"title", "stewards": [pid]} and "discoverable" where it is set
unfoldable pub genesis_body : String → String → Bool → RawMessage
genesis_body title pid discoverable =
    let owners = arr (cons (str pid) nil) in
    if discoverable
    then one (
        obj (
          field "discoverable" (bool true)
            (field "stewards" owners (field "title" (str title) end))))
    else one (obj (field "stewards" owners (field "title" (str title) end)))

-- the entry that NewThreadWith signs: the thread id is its own id
unfoldable pub genesis_entry : String → String → String → RawMessage → Entry
genesis_entry pid id ts body = record {
  v = pos 0;
  id = id;
  thread = id;
  kind = kind_thread;
  lane = lane_control;
  author = pid;
  on_behalf_of = "";
  seq = 1;
  lamport = 1;
  prev = genesis_prev;
  ts = ts;
  refs = none;
  body = body;
  sig = "";
}

module _ (c : Crypto) (priv : List ℕ) where
  -- Author.Append: the log with the new entry, and the entry
  unfoldable pub author_append : ThreadLog → String → String → Draft → Result (ThreadLog × Entry)
  author_append l id ts d = do
    pid ← principal_id (c.public priv)
    body ← to_raw_body d.body
    e ← sign_entry c priv (draft_entry l pid id ts d body)
    l' ← append c l e
    ok (l', e)

  -- NewThreadWith
  unfoldable pub new_thread_with : String → Bool → String → String → Result (ThreadLog × Entry)
  new_thread_with title discoverable id ts = do
    pid ← principal_id (c.public priv)
    e ← sign_entry c priv (genesis_entry pid id ts (genesis_body title pid discoverable))
    l ← append c (new_thread_log id) e
    ok (l, e)
