-- ===== src/Tests.antt =====
-- Models of the crates that the program uses, runs at concrete inputs and applied theorems.
mod BytesModel
mod MapModel
mod QueueModel
mod Protocol
mod Resolver
mod Tracker
mod RateLimit
mod Tower
mod CacheModel
mod Cached
mod Config
mod Channel
mod Edge
mod Flight
mod Corral
mod Sidecar
mod Layers
mod Adaptor
mod Files
mod Builder
mod Exit
mod Context
