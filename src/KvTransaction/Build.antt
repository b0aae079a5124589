-- ===== src/KvTransaction/Build.antt =====
-- crates/server/types/src/kv_transaction/mod.rs, the builders.
pub mod Predicates
pub mod Operations
pub mod Branches
