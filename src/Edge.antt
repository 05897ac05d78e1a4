-- ===== src/Edge.antt =====
-- crates/kaze-edge/src/edge.rs: the sidecar's end of the channel to its host.
pub mod Calls
pub mod Transfer
