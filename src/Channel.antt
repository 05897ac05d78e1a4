-- ===== src/Channel.antt =====
-- crates/kaze-core/src: the channel between the host and the sidecar, a queue for each direction.
pub mod Errors
pub mod Options
pub mod Calls
pub mod Write
pub mod Read
pub mod Stuck
pub mod Halves
