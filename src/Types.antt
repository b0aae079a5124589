-- ===== src/Types.antt =====
-- The types of `server/base` and `server/types` that the state machine works on.
pub mod Interval
pub mod Time
pub mod MetaSpec
pub mod SeqV
pub mod Upsert
pub mod Change
pub mod Node
pub mod Address
pub mod SysData
pub mod CmdContext
