-- ===== src/Resolver.antt =====
-- crates/kaze-resolver: from idents to addresses, and from a packet's route to its destination.
pub mod Trait
pub mod Local
pub mod Chain
pub mod Cached
pub mod Service
