-- ===== src/Nflog.antt =====
-- nflog/: the replicated notification log.
pub mod Data
pub mod Log
