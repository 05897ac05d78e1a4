-- ===== src/Context.antt =====
-- crates/kaze-plugin/src/context.rs: what the plugins hand to the pipeline. The sink, which runs
-- the pipeline, takes a packet and the address that it came from.
pub mod Exit
pub mod Components
use kaze.Base.{ℕ, none, some}
use kaze.Protocol.Hdr.{Hdr, dst_ident}
use kaze.Protocol.Packet.{Packet, hdr_mut}
use kaze.Protocol.Message.{PacketWithAddr}

-- The two assignments of `send_local`, where `local` is `local_node().ident`.
abbrev pub to_local : ℕ → Hdr → Hdr
to_local local hdr = record hdr { route_type = some (dst_ident local); src_ident = local }

-- `send_local`: what is given to the sink.
unfoldable pub send_local : ℕ → Packet → PacketWithAddr
send_local local p = (hdr_mut (to_local local) p, none)
