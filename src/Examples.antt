-- ===== src/Examples.antt =====
-- Runs of the model on concrete inputs, and the theorems at them.
pub mod Silences
pub mod Replicas
pub mod Muting
pub mod Notifications
pub mod Snapshots
pub mod Routing
pub mod Limits
pub mod Inhibition
pub mod Delivery
pub mod Grouping
pub mod Parsing
