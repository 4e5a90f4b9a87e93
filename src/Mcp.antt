-- ===== src/Mcp.antt =====
-- mcp/server.go: the tools that a node offers to agents. The protocol around the tools is the SDK's.
pub mod Words
pub mod Tools
pub mod Posted
pub mod Find
pub mod Kept
