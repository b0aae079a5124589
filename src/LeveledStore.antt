-- ===== src/LeveledStore.antt =====
-- crates/server/raft-store/src/leveled_store: the levels of the state machine's data.
pub mod Compact
pub mod Smallest
pub mod Mvcc
pub mod Level
pub mod Levels
pub mod LeveledMap
pub mod Order
pub mod Merged
pub mod Reads
pub mod Valid
pub mod Compacted
pub mod Snapshot
pub mod Persisted
pub mod Committed
pub mod Repeatable
pub mod Newest
