-- ===== src/Dispatch.antt =====
-- dispatch/: the routing tree, the aggregation groups and their dispatcher.
pub mod Route
pub mod Group
pub mod Dispatcher
