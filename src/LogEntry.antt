-- ===== src/LogEntry.antt =====
-- crates/server/types/src/log_entry/convert.rs: raft entries and requests as protobuf messages.
pub mod Proto
pub mod Convert
pub mod Append
pub mod Received
pub mod Replicated
pub mod Answers
