-- ===== src/Config.antt =====
-- crates/kaze-plugin/src/config_map: the configuration that the plugins read.
pub mod Value
pub mod Merge
pub mod Files
pub mod Builder
