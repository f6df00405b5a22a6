-- ===== src/Silence.antt =====
-- silence/: the replicated silence state, its indices, its queries and the cached silencer.
pub mod Data
pub mod Validate
pub mod Index
pub mod State
pub mod Operations
pub mod Query
pub mod Consistency
pub mod History
pub mod Failure
pub mod Effects
pub mod Silencer
pub mod Reach
