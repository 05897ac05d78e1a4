-- ===== src/Extern.antt =====
-- The packages that the program calls and does not contain: each is a record of the operations
-- that are called, with the documented behaviour that the program relies on as its laws.
pub mod Bytes
pub mod Map
pub mod Notify
pub mod Cache
pub mod DelayQueue
pub mod Lru
