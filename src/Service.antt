-- ===== src/Service.antt =====
-- crates/server/service/src: a request that is handled by the leader, or forwarded to it.
pub mod Errors
pub mod Forward
pub mod Remote
pub mod Bounds
pub mod Unreachable
pub mod Leader
pub mod Members
pub mod Relay
