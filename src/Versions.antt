-- ===== src/Versions.antt =====
-- crates/common/version: versions, the spans of features, and which versions can talk to each other.
pub mod Version
pub mod Spec
pub mod Truth
pub mod Rounds
pub mod Ranges
pub mod Peers
pub mod History
pub mod Settled
pub mod Raft
pub mod Grpc
