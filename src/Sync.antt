-- ===== src/Sync.antt =====
-- Synchronisation of a project with its remote.
pub mod Policy
pub mod State
pub mod Operation
pub mod Run
