-- ===== src/Protocol/Message.antt =====
-- crates/kaze-protocol/src/message.rs and src/service.rs: a packet on its way through the sidecar.
pub mod Routes
use kaze.Base.{ℕ, List, Bool, true, false, Option, none, some}
use kaze.Protocol.Hdr.{Hdr}
use kaze.Protocol.Packet.{Packet}

-- `std::net::SocketAddr`, which is only copied and compared.
pub record SocketAddr : Type 0 where
  pub ip : ℕ
  pub port : ℕ

pub record Node : Type 0 where
  pub ident : ℕ
  pub addr : SocketAddr

pub data Source : Type 0 where
  host : Source
  node : Node → Source

pub data Destination : Type 0 where
  drop : Destination
  host : Destination
  node : Node → Destination
  node_list : List Node → Destination

abbrev pub PacketWithAddr : Type 0
PacketWithAddr = Packet × Option SocketAddr

pub record Message : Type 0 where
  pub packet : Packet
  pub source : Source
  pub destination : Destination

abbrev pub from_remote : ℕ → SocketAddr → Source
from_remote ident addr = Source.node (record { ident = ident; addr = addr })

-- `Source::ident`
unfoldable pub ident : Source → ℕ
ident Source.host = 0
ident (Source.node n) = n.ident

source_of : Packet → Option SocketAddr → Source
source_of p none = Source.host
source_of p (some addr) = from_remote p.hdr.src_ident addr

-- `impl From<PacketWithAddr> for Message`
unfoldable pub from : PacketWithAddr → Message
unfolding source_of
from (p, addr) = record { packet = p; source = source_of p addr; destination = Destination.drop }

unfoldable pub new : Packet → Source → Message
new p src = record { packet = p; source = src; destination = Destination.drop }

unfoldable pub new_with_destination : Packet → Source → Destination → Message
new_with_destination p src dst = record { packet = p; source = src; destination = dst }

unfoldable pub from_split : PacketWithAddr → Destination → Message
unfolding source_of
from_split (p, addr) dst = record { packet = p; source = source_of p addr; destination = dst }

addr_of : Source → Option SocketAddr
addr_of Source.host = none
addr_of (Source.node n) = some n.addr

unfoldable pub split : Message → PacketWithAddr × Destination
unfolding addr_of
split m = ((m.packet, addr_of m.source), m.destination)

abbrev pub set_destination : Destination → Message → Message
set_destination dst m = record m { destination = dst }

unfoldable pub is_drop : Destination → Bool
is_drop Destination.drop = true
is_drop _ = false

unfoldable pub is_local : Destination → Bool
is_local Destination.host = true
is_local _ = false

unfoldable pub is_remote : Destination → Bool
is_remote (Destination.node _) = true
is_remote (Destination.node_list _) = true
is_remote _ = false
