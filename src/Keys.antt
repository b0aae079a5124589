-- ===== src/Keys.antt =====
-- Keys as texts: their order, the range of keys with a prefix, and the keys of `PutSequential`.
pub mod Order
pub mod Prefix
pub mod Range
pub mod Sequential
