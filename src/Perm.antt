-- ===== src/Perm.antt =====
-- node/internal/perm: a thread's permissions, folded from its control lane.
pub mod Scope
pub mod State
pub mod Apply
pub mod Query
pub mod Clock
pub mod Cases
pub mod Denied
pub mod Hidden
pub mod Stewards
pub mod Strangers
pub mod Window
pub mod Removal
pub mod Lanes
