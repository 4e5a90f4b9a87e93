-- ===== src/Owner/Control.antt =====
-- cmd/lamdis/main.go (cmdGrantWrite) and the same steps in api/portal.go: a control entry is authored on
-- the store's log and stored. Store.Thread hands out its own log by a pointer, so the author appends to
-- the log that the store keeps: `keep_log` puts the longer log in its place.
use lamdis.Prelude.{ℕ, String, Bool, ◌&&◌, true, some, none, List, [], ◌∷◌, if◌then◌else◌}
use lamdis.Prelude.Eq.{◌==◌, string_eq}
use lamdis.Json.{Fields, one, obj, str, arr, field, end}
use lamdis.Result.{ok}
use lamdis.Exec.{Exec, pure, lift, ◌>>=◌, ◌>>◌}
use lamdis.Store.{Store}
use lamdis.Log.Author.{Draft, author_append}
use lamdis.Log.Crypto.{Crypto}
use lamdis.Log.Entry.{Entry, lane_control}
use lamdis.Log.ThreadLog.{ThreadLog}
use lamdis.Perm.Scope.{valid_scope}
use lamdis.Sync.Client.{string_items}

unfoldable pub all_valid : List String → Bool
all_valid [] = true
all_valid (s ∷ rest) = valid_scope s && all_valid rest

-- The bodies, with the members in the order in which a map is marshaled. A request id that is "" and
-- a time to live that is none are left out.
abbrev pub scopes_field : List String → Fields → Fields
scopes_field scopes rest = field "scopes" (arr (string_items scopes)) rest

unfoldable pub grant_fields : String → String → List String → Fields → Fields
grant_fields principal request scopes rest =
    if request == ""
    then field "principal" (str principal) (scopes_field scopes rest)
    else field "principal" (str principal)
        (field "request" (str request) (scopes_field scopes rest))

unfoldable pub denial_fields : String → Fields
denial_fields principal = field "principal" (str principal) end

abbrev pub control_draft : String → Fields → Draft
control_draft kind fields = record {
  kind = kind;
  lane = lane_control;
  on_behalf_of = "";
  refs = none;
  body = some (one (obj fields));
}

module _ {S : Type 0} (c : Crypto) (store : Store S) (keep_log : ThreadLog → S → S) (priv : List ℕ)
    (id ts : String) where
  -- the entry is authored on the log, and stored
  unfoldable pub author_and_store : ThreadLog → String → Fields → Exec S Entry
  author_and_store tl kind fields = do
    r ← lift (author_append c priv tl id ts (control_draft kind fields))
    (λ s. (ok tt, keep_log r.0 s))
    store.append_entries (r.1 ∷ [])
    pure r.1

  -- cmdGrantWrite: the id that is printed
  unfoldable pub grant_write : String → String → Fields → Exec S String
  unfolding author_and_store
  grant_write kind thread fields = do
    tl ← store.thread thread
    e ← author_and_store tl kind fields
    pure e.id
