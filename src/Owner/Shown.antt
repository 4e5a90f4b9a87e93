-- ===== src/Owner/Shown.antt =====
-- cmd/lamdis/main.go: the commands that show, and the two files of a node: its key and its peers.
use lamdis.Prelude.{
  ℕ, String, Bool, Option, none, some, List, [], ◌∷◌, not, ◌||◌, true, eqb, if◌then◌else◌,
}
use lamdis.Prelude.Eq.{◌==◌, string_eq}
use lamdis.Prelude.Int.{pos}
use lamdis.Prelude.Lists.{length}
use lamdis.Prelude.Map.{Map, empty, insert}
use lamdis.Prelude.Text.{codes}
use lamdis.Json.{RawMessage, Value, null, str, obj, one, Fields, field, end}
use lamdis.Json.Unmarshal.{◌>>=◌ as or_none, is_field, to_string}
use lamdis.Result.{
  Result, ok, err, corrupt_peers, bad_answer, refused_by_peer, key_exists, no_store, corrupt_key,
  no_key,
}
use lamdis.Exec.{Exec, pure, ◌>>=◌}
use lamdis.Log.Entry.{Entry, Lane}
use lamdis.Embed.Vectors.{Vector}
use lamdis.Search.{Hit}
use lamdis.Search.Engine.{Floats, Fts, Tables}
use lamdis.Search.Merge.{search}
use lamdis.Mcp.Find.{refreshed}
use lamdis.Mcp.Tools.{all_lanes}
use Prim.Native.String.{◌++◌ as append}
use lamdis.Json.Unmarshal.{unmarshal}
use lamdis.Log.Crypto.{Crypto}
use lamdis.Log.Envelope.{hex_encode, hex_decode}
use lamdis.Log.Identity.{public_key, principal_id}
use lamdis.Owner.Words.{trim_space}
use lamdis.Mcp.Words.{member_text, short}
use lamdis.Owner.Resolve.{Peer}

-- the text of an entry that cmdRead prints
unfoldable pub shown_text : Entry → String
unfolding member_text
shown_text e =
    if member_text "text" e.body == ""
    then member_text "title" e.body
    else member_text "text" e.body

-- a line of cmdRead: time, lane, kind and text
abbrev pub EntryLine : Type 0
EntryLine = String × Lane × String × String

unfoldable pub shown : List Entry → List EntryLine
unfolding shown_text
shown [] = []
shown (e ∷ es) = (e.ts, e.lane, e.kind, shown_text e) ∷ shown es

-- cmdRead, over the store's Entries
unfoldable pub cmd_read :
    {S : Type 0} → (String → List Lane → Exec S (List Entry)) → String → Exec S (List EntryLine)
unfolding shown
cmd_read entries thread = do es ← entries thread all_lanes; pure (shown es)

-- the query's vector of cmdSearch: a failing embedder leaves the words alone; `vecs[0]` panics on none
unfoldable pub searched_vector :
    Option (List String → Result (List Vector)) → String → Option (Option Vector)
searched_vector none query = some none
searched_vector (some embedder) query = first (embedder (query ∷ []))
  where
    first : Result (List Vector) → Option (Option Vector)
    first (err x) = some none
    first (ok []) = none
    first (ok (v ∷ vs)) = some (some v)

-- cmdSearch: none for the panic
unfoldable pub cmd_search :
    (fl : Floats)
    → Fts
    → Option (List String → Result (List Vector))
    → ℕ
    → String
    → Tables
    → Option (Result (List (Hit fl.F)))
unfolding searched_vector refreshed search
cmd_search fl fts embedder fuel query t = or_none (searched_vector embedder query) (λ vec. some (
    search fl fts
      (record {
        query = query;
        threads = [];
        kinds = [];
        lanes = all_lanes;
        mode = "";
        k = pos 0;
        query_vec = vec;
      })
      (refreshed embedder fuel t)))

-- the members of a struct Peer
unfoldable pub set_peer : String → Value → Peer → Option Peer
unfolding is_field to_string
set_peer key v p =
    if is_field key "url"
    then or_none (to_string v p.url) (λ u. some (record p { url = u }))
    else if is_field key "principal"
    then or_none (to_string v p.principal) (λ q. some (record p { principal = q }))
    else some p

unfoldable pub peer_fields : Fields → Peer → Option Peer
unfolding set_peer
peer_fields end p = some p
peer_fields (field k v rest) p = or_none (set_peer k v p) (λ q. peer_fields rest q)

unfoldable pub peer_of : Value → Option Peer
unfolding peer_fields
peer_of null = some (record { url = ""; principal = "" })
peer_of (obj fs) = peer_fields fs (record { url = ""; principal = "" })
peer_of _ = none

-- the format before: an address alone
unfoldable pub legacy_peer : Value → Option Peer
legacy_peer null = some (record { url = ""; principal = "" })
legacy_peer (str url) = some (record { url = url; principal = "" })
legacy_peer _ = none

unfoldable pub peers_from :
    (Value → Option Peer) → Fields → Map String Peer → Option (Map String Peer)
unfolding insert
peers_from read end m = some m
peers_from read (field name v rest) m =
    or_none (read v) (λ p. peers_from read rest (insert name p m))

unfoldable pub decode_peers : (Value → Option Peer) → RawMessage → Option (Map String Peer)
unfolding peers_from
decode_peers read (one null) = some empty
decode_peers read (one (obj fs)) = peers_from read fs empty
decode_peers read _ = none

-- loadPeers, on what the file holds; none where there is no file
unfoldable pub load_peers : Option RawMessage → Result (Map String Peer)
unfolding decode_peers peer_of legacy_peer
load_peers none = ok empty
load_peers (some raw) = elim (decode_peers peer_of raw) [
  | some m ↦ ok m
  | none ↦ elim (decode_peers legacy_peer raw) [ some m ↦ ok m | none ↦ err corrupt_peers ]
]

-- savePeers: an empty principal is left out
unfoldable pub encode_peer : Peer → Value
encode_peer p =
    if p.principal == ""
    then obj (field "url" (str p.url) end)
    else obj (field "url" (str p.url) (field "principal" (str p.principal) end))

unfoldable pub encode_peers : Map String Peer → Fields
unfolding encode_peer
encode_peers [] = end
encode_peers ((name, p) ∷ rest) = field name (encode_peer p) (encode_peers rest)

-- cmdPeerAdd: the peers that are saved; the address without its last slashes, and the identity that the peer
-- answers with, where it does
unfoldable pub add_peer :
    (String → String)
    → (String → Result String)
    → Map String Peer
    → String
    → String
    → Map String Peer
unfolding insert
add_peer trim fetch peers name url =
    insert name (record { url = trim url; principal = known (fetch (trim url)) }) peers
  where
    known : Result String → String
    known (ok principal) = principal
    known (err x) = ""

-- cmdPeers
unfoldable pub peer_lines : Map String Peer → List (String × String × String)
peer_lines [] = []
peer_lines ((name, p) ∷ rest) =
    (name, p.url, (if p.principal == "" then "(identity not exchanged yet)" else p.principal))
    ∷ peer_lines rest

-- FetchNodeInfo: what a peer answers to GET /v1/node, the status and the body
unfoldable pub set_principal : String → Value → String → Option String
unfolding is_field to_string
set_principal key v old = if is_field key "principal" then to_string v old else some old

unfoldable pub checked_principal : Option String → Result String
checked_principal none = err bad_answer
checked_principal (some pid) = elim (public_key pid) [ err x ↦ err x | ok _ ↦ ok pid ]

unfoldable pub node_info : Option (ℕ × RawMessage) → Result String
unfolding checked_principal set_principal unmarshal
node_info none = err bad_answer
node_info (some (status, body)) =
    if eqb status 200
    then checked_principal (unmarshal set_principal body "")
    else err refused_by_peer

-- the files in the data directory: the key, and whether there is a store
pub record Files : Type 0 where
  pub key : Option String
  pub store : Bool

-- cmdInit, with the seed that was drawn and its principal: a key is never overwritten
unfoldable pub cmd_init : List ℕ → String → Exec Files String
unfolding hex_encode
cmd_init seed pid f = elim f.key [
  | some old ↦ (err key_exists, f)
  | none ↦ (ok pid, record { key = some (append (hex_encode seed) "\n"); store = true })
]

-- openStore
unfoldable pub open_store : Files → Result (Unit {0})
open_store f = if f.store then ok tt else err no_store

unfoldable pub key_of_seed : Crypto → (List ℕ → List ℕ) → Option (List ℕ) → Result (List ℕ × String)
unfolding principal_id
key_of_seed c expand none = err corrupt_key
key_of_seed c expand (some seed) =
    if not (eqb (length seed) 32)
    then err corrupt_key
    else elim (principal_id (c.public (expand seed))) [
      | err x ↦ err x
      | ok pid ↦ ok (expand seed, pid)
    ]

-- loadKey; ed25519.NewKeyFromSeed is `expand`
unfoldable pub load_key : Crypto → (List ℕ → List ℕ) → Files → Result (List ℕ × String)
unfolding key_of_seed hex_decode trim_space
load_key c expand f = elim f.key [
  | none ↦ err no_key
  | some raw ↦ key_of_seed c expand (hex_decode (codes (trim_space raw)))
]

-- embedderFromEnv: the address, key and model of the service, where the environment names them
unfoldable pub embedder_from_env : String → String → String → Option (String × String × String)
embedder_from_env url key model = if url == "" || model == "" then none else some (url, key, model)

-- Portal.name
unfoldable pub display_name : Option (String → String) → String → String
unfolding short
display_name none principal = short principal
display_name (some names) principal =
    if names principal == "" then short principal else names principal
