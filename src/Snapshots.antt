-- ===== src/Snapshots.antt =====
-- Snapshots in the directory of a node: crates/server/raft-store/src/state_machine/snapshot_id.rs, snapshot_config.rs and
-- sm_v003/snapshot_loader.rs.
pub mod Id
pub mod Names
pub mod RoundTrip
pub mod Order
pub mod Loader
pub mod Store
pub mod Gather
pub mod Listed
pub mod Removed
pub mod Left
pub mod Loaded
pub mod Kept
pub mod Reached
