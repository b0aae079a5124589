-- ===== src/StateMachine.antt =====
-- The state machine that log entries are applied to, as the code sees it: the maps of the crate
-- map-api behind a trait, and the repository's operations on them.
pub mod Api
pub mod Laws
pub mod Ext
pub mod Memory
