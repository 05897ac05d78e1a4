-- ===== src/Corral/Delivery.antt =====
-- What reaches another sidecar of a message that is sent to it.
use kaze.Base.{
  ℕ, ◌^◌, ◌<◌, ◌≡◌, refl, sym, ap, ◌∙◌, List, [], ◌∷◌, ◌++◌, append-nil, length, take, none, some,
  Outcome, ok, ◌>>=◌,
}
use kaze.Extern.Lru.{LruCrate}
use kaze.Extern.Bytes.{BytesCrate}
use kaze.Protocol.Hdr.{Prost, Codes}
use kaze.Protocol.Prefix.{CodecError}
use kaze.Protocol.Packet.{Packet, as_buf, remaining, to_iovec, body}
use kaze.Protocol.Packet.Wire.{IsValid}
use kaze.Protocol.Codec.{decode}
use kaze.Protocol.Codec.RoundTrip.{decode-encode}
use kaze.Protocol.Codec.IoVec.{to_iovec-encode}
use kaze.Protocol.Message.{Message, Node, SocketAddr, Destination, is_remote, split}
use kaze.Corral.{Corral, Work, find_or_connect, add_connection, remove_connection}
use kaze.Corral.Sends.{send_raw, serve}

bytes_of : Outcome CodecError (List ℕ) → List ℕ
bytes_of (ok bs) = bs
bytes_of _ = []

take_all : (bs : List ℕ) → take (length bs) bs ≡ bs
take_all [] = refl
take_all (b ∷ bs) = ap (λ t. b ∷ t) (take_all bs)

module _ {Conn Err : Type 0} (L : LruCrate SocketAddr Conn)
    (work : Corral L → SocketAddr → Work Conn Err × Corral L)
    (write : Conn → List ℕ → Outcome Err ℕ) (B : BytesCrate) (P : Prost) where
  serve-node :
      (s : Corral L) (msg : Message) (dst : Node) (conn : Conn) (a b : List ℕ) (n : ℕ)
      → msg.destination ≡ Destination.node dst
      → to_iovec B P msg.packet ≡ ok (a, b)
      → L.get s.sock_map dst.addr ≡ some conn
      → write conn (a ++ b) ≡ ok n
      → serve L work write B P s msg ≡ (
        ok none,
        record s { sock_map = L.touch s.sock_map dst.addr },
        (conn, take n (a ++ b)) ∷ [],
      )
  unfolding serve split is_remote send_raw find_or_connect
  serve-node s msg dst conn a b n there iov found wrote = rw (there, iov, found, wrote) refl

  -- A message for a node, to which there is a connection, is taken as sent however few of its bytes the
  -- connection takes: those that it does not take are not written again.
  pub serve_cut :
      (s : Corral L) (msg : Message) (dst : Node) (conn : Conn) (a b : List ℕ) (n : ℕ)
      → msg.destination ≡ Destination.node dst
      → to_iovec B P msg.packet ≡ ok (a, b)
      → L.get s.sock_map dst.addr ≡ some conn
      → write conn (a ++ b) ≡ ok n
      → ((serve L work write B P s msg).0 ≡ ok none)
        × ((serve L work write B P s msg).2 ≡ (conn, take n (a ++ b)) ∷ [])
  serve_cut s msg dst conn a b n there iov found wrote =
      let e = serve-node s msg dst conn a b n there iov found wrote in
      (ap (λ r. r.0) e, ap (λ r. r.2) e)

  pub record Arrives (s : Corral L) (msg : Message) (conn : Conn) : Type 0 where
    pub wire : List ℕ
    pub packet : Packet
    pub sent_lem : (serve L work write B P s msg).2 ≡ (conn, wire) ∷ []
    pub taken_lem : (serve L work write B P s msg).0 ≡ ok none
    pub decode_lem : decode B P wire ≡ ([], ok (some packet))
    pub hdr_lem : packet.hdr ≡ msg.packet.hdr
    pub body_lem : body packet ≡ body msg.packet
    pub valid_lem : IsValid P packet
    pub size_lem : (as_buf B P packet >>= remaining) ≡ (as_buf B P msg.packet >>= remaining)

  -- A message for a node, to which there is a connection that takes all bytes it is given, goes out on it
  -- as bytes that the codec on the other side decodes to a valid packet with the same header and body, as
  -- long when it is written again. Its packet can be written, and its frame fits the 32-bit size field.
  pub serve-Arrives :
      (s : Corral L) (msg : Message) (dst : Node) (conn : Conn) (n : ℕ)
      → msg.destination ≡ Destination.node dst
      → Codes P msg.packet.hdr
      → IsValid P msg.packet
      → (as_buf B P msg.packet >>= remaining) ≡ ok n
      → n < 2 ^ 32
      → L.get s.sock_map dst.addr ≡ some conn
      → ((bs : List ℕ) → write conn bs ≡ ok (length bs))
      → Arrives s msg conn
  unfolding bytes_of
  serve-Arrives s msg dst conn n there c v size fits found takes =
      let (iov, e1, e2) = to_iovec-encode B P msg.packet [] c v in
      let (wire, p, e3, e4, e5, e6, e7, e8) = decode-encode B P msg.packet n [] [] c v size fits in
      let same : wire ≡ iov.0 ++ iov.1 = ap bytes_of (sym e3 ∙ e2) in
      let cut =
        serve_cut s msg dst conn iov.0 iov.1 (length (iov.0 ++ iov.1)) there e1 found
          (takes (iov.0 ++ iov.1)) in
      record {
        wire = wire;
        packet = p;
        sent_lem = cut.1 ∙ ap (λ bs. (conn, bs) ∷ []) (take_all (iov.0 ++ iov.1) ∙ sym same);
        taken_lem = cut.0;
        decode_lem = ap (decode B P) (sym (append-nil wire)) ∙ e4;
        hdr_lem = e5;
        body_lem = e6;
        valid_lem = e7;
        size_lem = e8 ∙ sym size;
      }

module _ {Conn : Type 0} (L : LruCrate SocketAddr Conn) where
  -- When a sidecar connects again before its old connection is gone, the end of the old one removes the
  -- new one, which was found until then, from the table.
  pub remove_connection-add_connection :
      (s : Corral L) (old new : Conn) (addr : SocketAddr)
      → let s' = (add_connection L (add_connection L s old addr).1 new addr).1 in
        (L.get s'.sock_map addr ≡ some new)
        × (L.get (remove_connection L s' addr).sock_map addr ≡ none)
  unfolding add_connection remove_connection
  remove_connection-add_connection s old new addr = (L.get-put _ addr new, L.get-pop _ addr)
