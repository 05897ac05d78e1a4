-- ===== src/Sidecar/Pipeline/Hosts.antt =====
-- A packet on its way from one host to another, over the sidecars of both.
use kaze.Base.{
  ℕ, ◌+◌, ◌^◌, ◌≤◌, ◌≡◌, ◌≢◌, refl, sym, ap, subst, ◌∙◌, arith, List, [], ◌∷◌, ◌++◌, length, true,
  false, ok, ◌>>=◌, none, some, ◌==◌,
}
use kaze.Extern.Lru.{LruCrate}
use kaze.Extern.Bytes.{BytesCrate}
use kaze.Ring.Queue.{Queue, aligned_to}
use kaze.Ring.Layout.{Straight, Holds}
use kaze.Ring.Send.{Room}
use kaze.Protocol.Hdr.{Prost, Codes, dst_ident}
use kaze.Protocol.Buf.{BufWrapper}
use kaze.Protocol.Packet.{Packet, as_buf, body, remaining}
use kaze.Protocol.Packet.Drain.{contents, remaining-contents}
use kaze.Protocol.Packet.Wire.{IsValid, AsBuf-Frames}
use kaze.Protocol.Codec.{decode, put_buf}
use kaze.Protocol.Codec.Put.{put_buf_lem}
use kaze.Protocol.Message.{SocketAddr, Message, Destination, from, is_local, set_destination}
use kaze.Resolver.Trait.{Resolver}
use kaze.Tracker.{Tracker, record_message}
use kaze.Edge.Calls.{read_packet}
use kaze.Sidecar.Pipeline.{Parts, World, pipeline}
use kaze.Sidecar.Pipeline.Arrival.{pipeline-Reaches}
use kaze.Sidecar.Pipeline.Relay.{node_at, pipeline-GoesOut}

-- A message without a timeout passes the tracker as it is.
record_message_plain :
    (t : Tracker) (msg : Message) → msg.packet.hdr.timeout ≡ 0 → (record_message t msg).1 ≡ msg
unfolding record_message
record_message_plain t msg e =
    let zero : (msg.packet.hdr.timeout == 0) ≡ true = ground arith in simp zero refl

-- The bytes that a packet of a known length is written to the host as.
host_bytes :
    (B : BytesCrate) (P : Prost) (p : Packet) (n : ℕ)
    → Codes P p.hdr
    → IsValid P p
    → (as_buf B P p >>= remaining) ≡ ok n
    → (bs : List ℕ) × ((as_buf B P p >>= put_buf B P 3 []) ≡ ok bs) × (length bs ≡ n)
host_bytes B P p n c v size =
    let a = AsBuf-Frames B P p c v in
    (
      contents a.buf,
      ap (λ b. b >>= put_buf B P 3 []) a.as_buf_lem ∙ put_buf_lem B P [] a.buf a.readable,
      cc (size, ap (λ b. b >>= remaining) a.as_buf_lem, remaining-contents a.buf a.readable),
    )

module _ {Conn Err Io FE : Type 0} (R : Resolver) (L : LruCrate SocketAddr Conn) (B : BytesCrate)
    (P : Prost) (S S' : Parts Err Io FE L) where
  -- The one sidecar sends the packet that its host gave to it, and the other one, which reads it from the
  -- connection, hands it to its own host.
  pub record Relayed (pooled : BufWrapper) (p : Packet) (origin : SocketAddr) (conn : Conn)
      (w w' : World R L) : Type 0 where
    pub after : World R L
    pub sends_lem : pipeline R L B P S (p, none) w ≡ some (ok tt, after)
    pub wire : List ℕ
    pub sent_lem : after.sent ≡ w.sent ++ ((conn, wire) ∷ [])
    pub there : Packet
    pub decode_lem : decode B P wire ≡ ([], ok (some there))
    pub after' : World R L
    pub takes_lem : pipeline R L B P S' (there, some origin) w' ≡ some (ok tt, after')
    pub read : Packet
    pub left : Queue
    pub read_lem :
        read_packet S'.last_os_error S'.unknown B P S'.changes pooled after'.host
        ≡ some (ok read, left)
    pub hdr_lem : read.hdr ≡ p.hdr
    pub body_lem : body read ≡ body p

  -- A packet without a timeout that a host sends to the ident of another host's sidecar is read by that
  -- host, with the same header and body: its own sidecar sends it over the connection to the other, which
  -- decodes it and puts it into the queue to its host. The other's node is known and connected by a
  -- connection that takes all bytes it is given, the plugins of both let every message through, the packet
  -- can be written as bytes of a 31-bit length, and the queue to the other host is empty, not wrapped, in use
  -- by no one and has room for them behind the tail or, if they do not fit there, at the start.
  pub pipeline-Relayed :
      (pooled : BufWrapper) (p : Packet) (addr origin : SocketAddr) (conn : Conn) (n : ℕ)
      (w w' : World R L)
      → p.hdr.route_type ≡ some (dst_ident S'.ident)
      → S'.ident ≢ S.ident
      → p.hdr.timeout ≡ 0
      → R.get_node S'.ident w.resolver ≡ some addr
      → L.get w.corral.sock_map addr ≡ some conn
      → ((bs : List ℕ) → S.write conn bs ≡ ok (length bs))
      → ((m : Message) → S.filter m ≡ ok (some m))
      → ((m : Message) → S'.filter m ≡ ok (some m))
      → Codes P p.hdr
      → IsValid P p
      → (as_buf B P p >>= remaining) ≡ ok n
      → n + 8 ≤ 2 ^ 31
      → Holds w'.host []
      → Straight w'.host.size w'.host.used w'.host.head w'.host.tail w'.host.bytes []
      → w'.host.reading ≡ false
      → w'.host.writing ≡ false
      → Room w'.host (aligned_to (n + 4) 4)
      → Relayed pooled p origin conn w w'
  unfolding from is_local
  pipeline-Relayed pooled p addr origin conn n w w' route away plain known connected takes lets
        lets' c v size short h s rfree wfree fits =
      let d = node_at R L B P S S'.ident addr in
      let m = set_destination d (from (p, none)) in
      let out =
        pipeline-GoesOut R L B P S (p, none) w m S'.ident addr conn n route away known connected
          takes (lets _ ∙ ap (λ x. ok (some x)) (record_message_plain w.tracker m plain)) refl c v
          size (omega arith) in
      let q = out.arrives.packet in
      let hdr_lem : q.hdr ≡ p.hdr = out.arrives.hdr_lem in
      let c' : Codes P q.hdr = subst (Codes P) (sym hdr_lem) c in
      let m' = set_destination Destination.host (from (q, some origin)) in
      let (bs, written, length_lem) =
        host_bytes B P q n c' out.arrives.valid_lem (out.arrives.size_lem ∙ size) in
      let r =
        pipeline-Reaches R L B P S' pooled (q, some origin) w' m' bs
          (ap (λ hdr. hdr.route_type) hdr_lem ∙ route)
          (lets' _
            ∙ ap (λ x. ok (some x))
                (record_message_plain w'.tracker m' (ap (λ hdr. hdr.timeout) hdr_lem ∙ plain)))
          refl c' out.arrives.valid_lem written (omega arith) h s rfree wfree
          (subst (λ k. Room w'.host (aligned_to (k + 4) 4)) (sym length_lem) fits) in
      record {
        after = out.after;
        sends_lem = out.pipeline_lem;
        wire = out.arrives.wire;
        sent_lem = out.sent_lem;
        there = q;
        decode_lem = out.arrives.decode_lem;
        after' = _;
        takes_lem = r.pipeline_lem;
        read = r.delivered.packet;
        left = r.delivered.queue;
        read_lem = r.delivered.read_lem;
        hdr_lem = r.delivered.hdr_lem ∙ hdr_lem;
        body_lem = r.delivered.body_lem ∙ out.arrives.body_lem;
      }
