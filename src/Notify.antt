-- ===== src/Notify.antt =====
-- notify/: the stages between an alert group and its receivers.
pub mod Reason
pub mod Stages
pub mod Once
pub mod Retry
pub mod Pipeline
pub mod Intervals
pub mod Delivery
pub mod Builder
