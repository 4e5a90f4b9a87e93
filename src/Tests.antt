-- ===== src/Tests.antt =====
-- Concrete runs of the model: the data, and the theorems applied to it.
pub mod Fixtures
pub mod Grants
pub mod Logs
pub mod Requests
pub mod Clients
pub mod Keys
pub mod Calls
pub mod Decisions
pub mod Embeddings
pub mod Durability
pub mod Planting
pub mod Searches
