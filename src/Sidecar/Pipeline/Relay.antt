-- ===== src/Sidecar/Pipeline/Relay.antt =====
-- A packet on its way from one host to another, over the sidecars of both.
use kaze.Base.{ℕ, ◌^◌, ◌<◌, ◌≡◌, ◌≢◌, refl, ap, List, [], ◌∷◌, ◌++◌, length, ok, ◌>>=◌, none, some}
use kaze.Extern.Lru.{LruCrate}
use kaze.Extern.Bytes.{BytesCrate}
use kaze.Protocol.Hdr.{Prost, Codes, dst_ident}
use kaze.Protocol.Packet.{as_buf, remaining}
use kaze.Protocol.Packet.Wire.{IsValid}
use kaze.Protocol.Message.{SocketAddr, PacketWithAddr, Message, Destination}
use kaze.Resolver.Trait.{Resolver}
use kaze.Corral.Sends as Sends
use kaze.Corral.Delivery.{Arrives, serve-Arrives}
use kaze.Sidecar.Pipeline.{Parts, World, before, forward, send_on, pipeline}
use kaze.Sidecar.Pipeline.Arrival.{tracked, tracking, pipeline-send_on, routed_node}

module _ {Conn Err Io FE : Type 0} (R : Resolver) (L : LruCrate SocketAddr Conn) (B : BytesCrate)
    (P : Prost) (S : Parts Err Io FE L) where
  -- What the message does to the connections.
  abbrev sending : Message → World R L → World R L
  sending m w =
      let (r, corral, out) = Sends.serve L S.work S.write B P w.corral m in
      record w { corral = corral; sent = w.sent ++ out }

  send_on_node :
      (m : Message) (w : World R L)
      → (Sends.serve L S.work S.write B P w.corral m).0 ≡ ok none
      → send_on R L B P S m w ≡ some (ok none, sending m w)
  unfolding send_on forward before
  send_on_node m w e = simp e refl

  abbrev pub node_at : ℕ → SocketAddr → Destination
  node_at i addr = Destination.node (record { ident = i; addr = addr })

  pub record GoesOut (p : PacketWithAddr) (w : World R L) (d : Destination) (m : Message)
      (conn : Conn) : Type 0 where
    pub arrives : Arrives L S.work S.write B P w.corral m conn
    pub after : World R L
    pub pipeline_lem : pipeline R L B P S p w ≡ some (ok tt, after)
    pub host_lem : after.host ≡ w.host
    pub tracker_lem : after.tracker ≡ (tracking R L B P S p d w).tracker
    pub sent_lem : after.sent ≡ w.sent ++ ((conn, arrives.wire) ∷ [])

  -- A packet that is routed to another ident, whose node is known and connected by a connection that takes
  -- all bytes it is given, and that the filter passes as a message for that node, goes out on that
  -- connection alone, as bytes that the codec on the other side decodes to a packet with the header and the
  -- body that the filter left it; the tracker has noted it, and the host sees nothing of it. Its packet can
  -- be written, and its frame fits the 32-bit size field.
  pub pipeline-GoesOut :
      (p : PacketWithAddr) (w : World R L) (m : Message) (i : ℕ) (addr : SocketAddr) (conn : Conn)
      (n : ℕ)
      → p.0.hdr.route_type ≡ some (dst_ident i)
      → i ≢ S.ident
      → R.get_node i w.resolver ≡ some addr
      → L.get w.corral.sock_map addr ≡ some conn
      → ((bs : List ℕ) → S.write conn bs ≡ ok (length bs))
      → S.filter (tracked R L B P S p (node_at i addr) w) ≡ ok (some m)
      → m.destination ≡ node_at i addr
      → Codes P m.packet.hdr
      → IsValid P m.packet
      → (as_buf B P m.packet >>= remaining) ≡ ok n
      → n < 2 ^ 32
      → GoesOut p w (node_at i addr) m conn
  pipeline-GoesOut p w m i addr conn n route away known connected takes passes there c v size fits =
      let a =
        serve-Arrives L S.work S.write B P w.corral m (record { ident = i; addr = addr }) conn n
          there c v size fits connected takes in
      let t = tracking R L B P S p (node_at i addr) w in
      record {
        arrives = a;
        after = sending m t;
        pipeline_lem =
            pipeline-send_on R L B P S p w (sending m t) (node_at i addr) m none
              (routed_node R L B P S p w i addr route away known) passes
              (send_on_node m t a.taken_lem);
        host_lem = refl;
        tracker_lem = refl;
        sent_lem = ap (λ out. w.sent ++ out) a.sent_lem;
      }
