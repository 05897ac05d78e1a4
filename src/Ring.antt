-- ===== src/Ring.antt =====
-- crates/kaze-core/kaze.h: the queue in shared memory, and what stands in its bytes.
pub mod Memory
pub mod Queue
pub mod Layout
pub mod Front
pub mod Left
pub mod Oldest
pub mod Pop
pub mod Append
pub mod Push
pub mod Send
pub mod Overrun
pub mod Wait
pub mod Closing
