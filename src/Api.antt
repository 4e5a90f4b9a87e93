-- ===== src/Api.antt =====
-- node/internal/api: the HTTP interface of a node, and the transport that calls it.
pub mod Auth
pub mod Handlers
pub mod Remote
pub mod Authentic
pub mod Replies
pub mod Answered
