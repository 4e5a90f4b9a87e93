-- ===== src/Sync.antt =====
-- node/internal/sync: replication between nodes, evaluated as a principal.
pub mod Order
pub mod Server
pub mod Ordering
pub mod Pulled
pub mod Pushed
pub mod Planted
pub mod Kept
pub mod Submitted
pub mod Client
pub mod Ingested
pub mod Offered
