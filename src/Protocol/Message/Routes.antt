-- ===== src/Protocol/Message/Routes.antt =====
-- Messages and the pairs that they are taken from and split into.
use kaze.Base.{◌≡◌, refl, none, some, ap, sym, ◌↔◌}
use kaze.Protocol.Packet.{Packet}
use kaze.Protocol.Message.{
  PacketWithAddr, Message, Source, Destination, Node, from, from_split, split, ident,
}

-- A packet with its peer's address and a destination are what the message made of them is split
-- into; the message that `from` makes has the same packet and source, and is to be dropped.
pub split-from_split :
    (p : PacketWithAddr) (d : Destination)
    → (split (from_split p d) ≡ (p, d))
      × (split (from p) ≡ (p, Destination.drop))
      × ((from p).source ≡ (from_split p d).source)
unfolding split from_split from
split-from_split (p, none) d = (refl, refl, refl)
split-from_split (p, some a) d = (refl, refl, refl)

abbrev pub from_node : Packet → Node → Destination → Message
from_node p n d = record { packet = p; source = Source.node n; destination = d }

-- Splitting a message from a node loses nothing exactly when that node bears the `src_ident` of
-- the packet's header.
pub from_split-split :
    (p : Packet) (n : Node) (d : Destination)
    → (n.ident ≡ p.hdr.src_ident)
      ↔ (from_split (split (from_node p n d)).0 (split (from_node p n d)).1 ≡ from_node p n d)
unfolding split from_split ident
from_split-split p n d = (
  λ h. ap (λ k. from_node p (record { ident = k; addr = n.addr }) d) (sym h),
  λ h. sym (ap (λ m. ident m.source) h),
)
