-- ===== src/Protocol.antt =====
-- crates/kaze-protocol: headers, packets, messages and the network codec.
pub mod Hdr
pub mod Buf
pub mod Prefix
pub mod Packet
pub mod Codec
pub mod Message
pub mod Encode
