-- ===== src/OnDisk.antt =====
-- crates/server/raft-store/src/ondisk: the version of the data on disk and its upgrade.
pub mod Version
pub mod Import
pub mod Compatible
pub mod Disk
pub mod Upgrade
pub mod Ensures
pub mod Phases
pub mod FromV003
pub mod Crash
