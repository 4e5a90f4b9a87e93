-- ===== src/Lib.antt =====
-- A model of the lamdis node: signed, hash-chained logs of entries, the permissions folded from them,
-- and the replication of threads between nodes.
--
-- The parts. An entry is signed by its author and stands in the chain of its thread, author and lane.
-- A thread's log admits an entry if it is valid and extends its chain. The permissions of a thread
-- are a function of its log: a fold over the control entries in the total order. The sync server
-- reads a thread's log from the store, folds it, and answers pulls and pushes by what the fold
-- permits; the driver of the store keeps rows and a cache of logs. The sync client pulls from a peer,
-- checks what it got against the permissions, and pushes its own chains back. Between nodes, the
-- requests go over HTTP, signed by the caller's key: the API's handlers call the sync server as the
-- signer, and the client's transport makes the requests. The owner decides who has access, in a web
-- portal or on the command line: a decision is authored as a control entry on the thread's log. A
-- worker gives each text a vector, and a search merges what the words and the vectors find, in the
-- lanes that it is asked for. An agent reads, posts, searches and syncs through the tools of the MCP
-- server, and decides nothing.
--
-- Which file models which code (paths from the repository's root):
--   Log/Entry, Log/Pattern, Log/Canonical, Log/Encode, Log/Envelope: node/internal/log/entry.go
--     (Entry, Less, canonicalBody, writeCanonical, canonicalBytes, Hash, Sign, Validate)
--   Log/Identity, Log/Base32: node/internal/log/identity.go (PrincipalID, PublicKey)
--   Log/ChainKey, Log/ThreadLog, Log/Author: node/internal/log/log.go (NewThreadLog, Heads,
--     Missing, After, Append, Author.Append, NewThreadWith)
--   Json/Bodies, Perm/Scope, Perm/State, Perm/Apply, Perm/Query: node/internal/perm/perm.go (Fold
--     and the queries of State; one function per kind of entry)
--   Store: node/internal/store/store.go, as an interface; Store/Sqlite, Store/Coherent:
--     node/internal/store/sqlite.go (threadLog, AppendEntries, Thread, Threads, Entries; OpenSQLite)
--   Search: SearchRequest and Hit of node/internal/store/store.go; Search/Query, Search/Engine,
--     Search/Merge: node/internal/store/sqlite.go (ftsQuery; indexableText, scopeFilter, scanHits,
--     searchFTS, searchVec, cosineF32; Search, sortHits)
--   Mcp/Words, Mcp/Tools, Mcp/Find, Owner/Threads: node/internal/mcp/server.go (the nine tools)
--   Sync/Order, Sync/Server, Sync/Client: node/internal/sync/sync.go (orderForAppend; List, Pull,
--     Push, Discover, SubmitAccessRequest; SyncAll, SyncThread, ShareThread, pushBack,
--     BuildAccessRequest)
--   Api/Auth, Api/Handlers, Api/Remote: node/internal/api/api.go (Sign, authenticate; the routes
--     and handlers of Server; HTTPTransport)
--   Owner/Portal, Owner/Listing: node/internal/api/portal.go (authed, handleDecide, handleState);
--     Owner/Words, Owner/Resolve, Owner/Commands, Owner/Rounds: node/cmd/lamdis/main.go
--     (resolveThread, resolveWho, peerName, cmdGrant, cmdApprove, cmdAccess, cmdThreadNew,
--     cmdThreads, cmdPost, cmdRequests, cmdRequest, cmdSync, cmdShare); Owner/Invocation: the
--     dispatch of run there, with deny and revoke; Owner/Shown: what shows, and the files (cmdRead,
--     cmdSearch, cmdPeers, cmdPeerAdd, loadPeers, savePeers, cmdInit, loadKey, openStore), with
--     FetchNodeInfo of node/internal/api/api.go and name of node/internal/api/portal.go;
--     Owner/Control: what both write (cmdGrantWrite)
--   Embed/Client, Embed/Worker: node/internal/embed/embed.go (OpenAICompat.Embed, Worker.Tick) and
--     drainEmbeds of node/cmd/lamdis/main.go; Embed/Vectors: node/internal/store/sqlite.go
--     (ensureDim, UpsertVector, PendingEmbeds, EntryText)
-- Log/After, Log/TotalOrder, Log/Insertion, Log/Invariant, Log/Admission, Log/Appended, Perm/Cases,
-- Perm/Denied, Perm/Hidden, Perm/Stewards, Perm/Strangers, Perm/Window, Perm/Removal, Perm/Lanes,
-- Sync/Ordering, Sync/Pulled, Sync/Pushed, Sync/Submitted, Sync/Ingested, Sync/Offered, Log/Hex,
-- Log/KeyText, Log/Signed, Log/NextEntry, Log/Authored, Log/LastEntry, Perm/Clock, Api/Authentic,
-- Api/Replies, Api/Answered, Owner/Authority, Owner/Decided, Owner/Denies, Owner/Granted,
-- Owner/Grants, Owner/Resolved, Owner/CommandGrants, Owner/CommandDenials, Embed/Waiting, Embed/Drained,
-- Embed/Answers,
-- Log/SortedUnique, Log/Admitted, Log/Hashed, Store/ChainOrder, Store/Rebuilt, Store/Rows,
-- Store/NewRow, Store/Durable, Store/Batches, Store/Restarted, Store/Unstored, Store/Handed, Store/Grown,
-- Log/FirstEntry, Sync/Planted, Sync/Kept, Search/Scoped,
-- Search/Results, Search/Answers, Search/Quoted, Mcp/Posted and Mcp/Kept hold the theorems, Tests the
-- runs.
--
-- How the code is rendered. A Go map is an association list with lookup, insert and delete; where the
-- code ranges over a map, the model takes the list's order. Pointers to entries are values. A call
-- that changes the store is a function from its state to a result and the next state, and what was
-- written before an error stays written. Numbers of entries are uint64: sums wrap, and theorems on
-- chains ask that sequence numbers are below 2^64. sort.Search runs on fuel, the length of the list,
-- which is enough since each round shortens the range by one at least. sort.Slice is an insertion
-- sort. The loop that drains the embeddings runs on fuel too; one more than the number of entries
-- without a vector is enough.
--
-- Store.Thread hands out the log that the store caches, by a pointer. An author appends to that log in
-- place, so the owner's commands take a function that puts the longer log back into the store; over
-- the SQLite driver that function writes the cached log. The cached logs and the rows are those of one
-- process: what another process writes to the same file between two calls is not modelled.
--
-- Parameters. sha256 and ed25519 are fields of a record; time.Parse and the current time are
-- arguments; a fresh ULID and the formatted time are arguments of authoring; strings.ToLower and
-- ToUpper are arguments; and so is the time that Sign formats. The network between two nodes takes
-- a request to a reply or to none. A search takes the full-text index of SQLite (the queries that it
-- refuses, such as the empty one, what matches, the order by rank, the excerpts) and the operations of
-- float64. encoding/json is modelled on values: a raw message is one of the outcomes of decoding it.
--
-- The database. A transaction that writes an entry fails where a number of the entry has the high bit
-- set, which database/sql refuses, and where the state's write_fails says so, for any other failure of
-- the INSERTs or the commit; it is rolled back, and the cached log keeps the entry. A query that only
-- reads is taken to succeed, and the raw column to decode to the entry that was encoded, so that the
-- errors of reading and of json.Unmarshal in threadLog are left out.
--
-- Not modelled: the SQL engine below the statements, the reply 400 to a request whose body breaks off
-- while it is read, the portal's page, the SDK around the MCP tools,
-- the flags and printing of the command line, the listener, key generation and the TypeScript SDK.
-- They are input and output around the parts above, or a library's work.
pub mod Prelude
pub mod Json
pub mod Result
pub mod Log
pub mod Perm
pub mod Exec
pub mod Store
pub mod Sync
pub mod Api
pub mod Owner
pub mod Embed
pub mod Search
pub mod Mcp
pub mod Tests
