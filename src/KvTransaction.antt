-- ===== src/KvTransaction.antt =====
-- crates/server/types/src/kv_transaction: transactions as the raft log stores them, their builders,
-- their protobuf images and what their predicates mean.
pub mod Operation
pub mod Defs
pub mod Build
pub mod Meaning
pub mod Proto
pub mod Convert
pub mod Conditions
pub mod RoundTrip
pub mod Legacy
