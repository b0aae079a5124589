-- ===== src/Applier.antt =====
-- crates/server/raft-store/src/applier/mod.rs: committed log entries applied to the state machine.
-- Each method is an action on an `Applier`; logging and the record of I/O times leave no trace.
pub mod Response
pub mod Defs
pub mod Evaluate
pub mod Execute
pub mod Transaction
pub mod Clean
pub mod Command
pub mod Keeps
pub mod Upsert
pub mod KeepsCmd
pub mod Invariants
pub mod Select
pub mod Count
pub mod Refine
pub mod Updates
pub mod Increase
pub mod Expired
pub mod Doubled
pub mod Nodes
pub mod Batch
pub mod Requests
pub mod Answers
pub mod Puts
pub mod Deletions
pub mod Cleaned
pub mod Sequence
pub mod Published
