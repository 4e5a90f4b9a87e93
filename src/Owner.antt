-- ===== src/Owner.antt =====
-- What the owner of a node decides, through the web portal and the command line.
pub mod Control
pub mod Authority
pub mod Granted
pub mod Portal
pub mod Decided
pub mod Denies
pub mod Grants
pub mod Listing
pub mod Words
pub mod Resolve
pub mod Resolved
pub mod Threads
pub mod Commands
pub mod Rounds
pub mod Invocation
pub mod Shown
pub mod CommandDenials
pub mod CommandGrants
