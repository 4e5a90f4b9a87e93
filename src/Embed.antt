-- ===== src/Embed.antt =====
-- The embedding worker, its client, and the driver's tables that they use.
pub mod Vectors
pub mod Client
pub mod Worker
pub mod Waiting
pub mod Drained
pub mod Answers
