-- ===== src/Sidecar/Pipeline/Arrival.antt =====
-- A packet for the host of this sidecar.
use kaze.Base.{
  ℕ, ◌+◌, ◌^◌, ◌≤◌, ◌≡◌, ◌≢◌, refl, ap, ◌∙◌, arith, List, [], ◌++◌, append-nil, length, true, false,
  ◌==◌, ok, ◌>>=◌, Option, none, some,
}
use kaze.Extern.Lru.{LruCrate}
use kaze.Extern.Bytes.{BytesCrate}
use kaze.Ring.Queue.{Queue}
use kaze.Ring.Layout.{slot, Straight, Holds}
use kaze.Ring.Send.{Room}
use kaze.Protocol.Hdr.{Prost, Codes, dst_ident}
use kaze.Protocol.Buf.{BufWrapper}
use kaze.Protocol.Packet.{as_buf}
use kaze.Protocol.Packet.Wire.{IsValid}
use kaze.Protocol.Codec.{put_buf}
use kaze.Protocol.Message.{
  SocketAddr, PacketWithAddr, Message, Destination, from, is_remote, is_local, set_destination,
}
use kaze.Resolver.Trait.{Resolver}
use kaze.Resolver.Service as Routing
use kaze.Tracker.{record_message}
use kaze.Corral.Sends.Ends.{serve_here}
use kaze.Edge.Calls.{map_err, read_packet}
use kaze.Edge.Transfer.{Delivered, read_packet-serve}
use kaze.Sidecar.Pipeline.{
  Parts, World, before, resolve, track, filter_message, forward, deliver, send_on, serve_message,
  pipeline,
}

local_only : (d : Destination) → is_local d ≡ true → is_remote d ≡ false
unfolding is_local is_remote
local_only Destination.host e = refl
local_only Destination.drop e = refl
local_only (Destination.node n) e = cc e
local_only (Destination.node_list ns) e = cc e

module _ {Conn Err Io FE : Type 0} (R : Resolver) (L : LruCrate SocketAddr Conn) (B : BytesCrate)
    (P : Prost) (S : Parts Err Io FE L) where
  -- What the tracker makes of a packet for a destination.
  abbrev pub tracked : PacketWithAddr → Destination → World R L → Message
  tracked p d w = (record_message w.tracker (set_destination d (from p))).1

  abbrev pub tracking : PacketWithAddr → Destination → World R L → World R L
  tracking p d w = record w { tracker = (record_message w.tracker (set_destination d (from p))).0 }

  -- A message that the resolver and the filter pass goes on as the filter left it.
  pub pipeline-send_on :
      (p : PacketWithAddr) (w v : World R L) (d : Destination) (m : Message) (o : Option (Unit {0}))
      → Routing.serve R S.draw S.ident (from p) w.resolver
        ≡ (some (set_destination d (from p)), w.resolver)
      → S.filter (tracked p d w) ≡ ok (some m)
      → send_on R L B P S m (tracking p d w) ≡ some (ok o, v)
      → pipeline R L B P S p w ≡ some (ok tt, v)
  unfolding pipeline serve_message resolve track filter_message before
  pipeline-send_on p w v d m o e f g = simp (e, f, g) refl

  send_on_host :
      (m : Message) (w : World R L) (q : Queue)
      → is_remote m.destination ≡ false
      → kaze.Edge.Calls.serve S.last_os_error S.unknown B P S.changes w.host m ≡ some (ok none, q)
      → send_on R L B P S m w ≡ some (ok none, record w { host = q; sent = w.sent ++ [] })
  unfolding send_on forward deliver before
  send_on_host m w q here e = simp (serve_here L S.work S.write B P w.corral m here, e) refl

  routed_host :
      (p : PacketWithAddr) (w : World R L)
      → p.0.hdr.route_type ≡ some (dst_ident S.ident)
      → Routing.serve R S.draw S.ident (from p) w.resolver
        ≡ (some (set_destination Destination.host (from p)), w.resolver)
  unfolding Routing.serve Routing.dispatch Routing.route from
  routed_host p w e = let same : (S.ident == S.ident) ≡ true = ground arith in simp (e, same) refl

  pub routed_node :
      (p : PacketWithAddr) (w : World R L) (i : ℕ) (addr : SocketAddr)
      → p.0.hdr.route_type ≡ some (dst_ident i)
      → i ≢ S.ident
      → R.get_node i w.resolver ≡ some addr
      → Routing.serve R S.draw S.ident (from p) w.resolver ≡ (
        some (set_destination (Destination.node (record { ident = i; addr = addr })) (from p)),
        w.resolver,
      )
  unfolding Routing.serve Routing.dispatch Routing.dispatch_ident Routing.route from
  routed_node p w i addr e away known =
      let other : (i == S.ident) ≡ false = ground arith in simp (e, other, known) refl

  pub record Reaches (pooled : BufWrapper) (p : PacketWithAddr) (w : World R L) (m : Message)
      : Type 0 where
    pub delivered : Delivered S.last_os_error S.unknown B P S.changes pooled w.host m
    pub pipeline_lem :
        pipeline R L B P S p w
        ≡ some (ok tt, record (tracking p Destination.host w) { host = delivered.sent })

  -- A packet that is routed to this sidecar's own ident, and that the filter passes as a message for the
  -- host, is read by the host with the header and the body that the filter left it; the tracker has noted
  -- it, and nothing goes out to another sidecar. Its packet can be written, the queue to the host is
  -- empty, not wrapped and in use by no one, and has room for it behind the tail or, if it does not fit
  -- there, at the start.
  pub pipeline-Reaches :
      (pooled : BufWrapper) (p : PacketWithAddr) (w : World R L) (m : Message) (wire : List ℕ)
      → p.0.hdr.route_type ≡ some (dst_ident S.ident)
      → S.filter (tracked p Destination.host w) ≡ ok (some m)
      → is_local m.destination ≡ true
      → Codes P m.packet.hdr
      → IsValid P m.packet
      → (as_buf B P m.packet >>= put_buf B P 3 []) ≡ ok wire
      → length wire + 8 ≤ 2 ^ 31
      → Holds w.host []
      → Straight w.host.size w.host.used w.host.head w.host.tail w.host.bytes []
      → w.host.reading ≡ false
      → w.host.writing ≡ false
      → Room w.host (slot wire)
      → Reaches pooled p w m
  pipeline-Reaches pooled p w m wire route passes here c v bytes short h s rfree wfree fits =
      let d =
        read_packet-serve S.last_os_error S.unknown B P S.changes pooled w.host m wire c v here
          bytes short h s rfree wfree fits in
      record {
        delivered = d;
        pipeline_lem =
            pipeline-send_on p w _ Destination.host m none (routed_host p w route) passes (
              send_on_host m (tracking p Destination.host w) d.sent (local_only m.destination here)
                d.serve_lem
              ∙ ap
                  (λ bs.
                    some (
                      ok none,
                      record (tracking p Destination.host w) { host = d.sent; sent = bs },
                    ))
                  (append-nil w.sent));
      }
