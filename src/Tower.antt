-- ===== src/Tower.antt =====
-- crates/kaze-util/src/tower_ext: services that are polled, put together. `tower::Service` and
-- `Future` are records of their operations.
pub mod Future
pub mod Filter
pub mod Chain
pub mod Maybe
pub mod Case
pub mod Turn
pub mod Sink
