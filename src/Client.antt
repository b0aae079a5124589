-- ===== src/Client.antt =====
-- crates/client/client/src: the endpoints that a client connects to.
pub mod Endpoints
pub mod Sorted
pub mod Chosen
pub mod Rotation
pub mod Failing
