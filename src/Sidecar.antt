-- ===== src/Sidecar.antt =====
-- crates/kaze-sidecar/src: how a sidecar is put together.
pub mod Layers
pub mod Pipeline
