-- ===== src/Corral/Sends.antt =====
-- crates/kaze-sidecar/src/plugins/corral/service.rs: sending a message to other sidecars.
pub mod Ends
use kaze.Base.{
  ℕ, List, [], ◌∷◌, ◌++◌, take, Bool, true, false, if◌then◌else◌, Option, none, some, Outcome, ok,
  err, panic,
}
use kaze.Extern.Lru.{LruCrate}
use kaze.Extern.Bytes.{BytesCrate}
use kaze.Protocol.Hdr.{Prost}
use kaze.Protocol.Prefix.{CodecError}
use kaze.Protocol.Packet.{to_iovec}
use kaze.Protocol.Message.{Message, Node, SocketAddr, Destination, is_remote, split}
use kaze.Corral.{Corral, CorralError, not_sent, Work, find_or_connect}

-- What `serve` fails with.
pub data ServeError (Err : Type 0) : Type 0 where
  to_node : CorralError Err → ServeError Err
  in_broadcast : List (CorralError Err) → ServeError Err
  no_packet : CodecError → ServeError Err

-- `work` is what the group makes of an address, and `write` is `write_vectored` of a connection: how many
-- of the bytes it took.
module _ {Conn Err : Type 0} (L : LruCrate SocketAddr Conn)
    (work : Corral L → SocketAddr → Work Conn Err × Corral L)
    (write : Conn → List ℕ → Outcome Err ℕ) where
  -- What came of a send, the connections after it, and what went out on which connection.
  abbrev pub Sending : Type 0
  Sending = Outcome (CorralError Err) (Unit {0}) × Corral L × List (Conn × List ℕ)

  taken : Conn → List ℕ → Corral L → Outcome Err ℕ → Sending
  taken conn bs s (ok n) = (ok tt, s, (conn, take n bs) ∷ [])
  taken conn bs s (err e) = (err (not_sent e), s, [])
  taken conn bs s panic = (panic, s, [])

  over : List ℕ → Outcome (CorralError Err) (Option Conn) × Corral L → Sending
  unfolding taken
  over bs (ok (some conn), s) = taken conn bs s (write conn bs)
  over bs (ok none, s) = (ok tt, s, [])
  over bs (err e, s) = (err e, s, [])
  over bs (panic, s) = (panic, s, [])

  -- `corral_send_raw`
  unfoldable pub send_raw : Corral L → List ℕ → Node → Sending
  unfolding over
  send_raw s bs dst = over bs (find_or_connect L work s dst.addr)

  -- The sends of `join_all`, one after the other: the errors among them, whether one panicked, and what
  -- went out.
  abbrev pub Sent : Type 0
  Sent = List (CorralError Err) × Bool × Corral L × List (Conn × List ℕ)

  noted : Outcome (CorralError Err) (Unit {0}) → List (Conn × List ℕ) → Sent → Sent
  noted (ok t) out (errors, panicked, s, rest) = (errors, panicked, s, out ++ rest)
  noted (err e) out (errors, panicked, s, rest) = (e ∷ errors, panicked, s, out ++ rest)
  noted panic out (errors, panicked, s, rest) = (errors, true, s, out ++ rest)

  unfoldable pub send_all : Corral L → List ℕ → List Node → Sent
  unfolding noted
  send_all s bs [] = ([], false, s, [])
  send_all s bs (dst ∷ dsts) =
      let (r, s', out) = send_raw s bs dst in noted r out (send_all s' bs dsts)

  judged : List (CorralError Err) → Bool → Outcome (ServeError Err) (Option Message)
  judged errors true = panic
  judged [] false = ok none
  judged errors false = err (in_broadcast errors)

  -- `corral_broadcast`
  unfoldable pub broadcast :
      Corral L
      → List ℕ
      → List Node
      → Outcome (ServeError Err) (Option Message) × Corral L × List (Conn × List ℕ)
  unfolding judged
  broadcast s bs dsts =
      let (errors, panicked, s', out) = send_all s bs dsts in (judged errors panicked, s', out)

  answered : Outcome (CorralError Err) (Unit {0}) → Outcome (ServeError Err) (Option Message)
  answered (ok t) = ok none
  answered (err e) = err (to_node e)
  answered panic = panic

  module _ (B : BytesCrate) (P : Prost) where
    abbrev pub Served : Type 0
    Served = Outcome (ServeError Err) (Option Message) × Corral L × List (Conn × List ℕ)

    send_bytes : Corral L → List ℕ → Destination → Served
    unfolding answered
    send_bytes s bs (Destination.node dst) =
        let (r, s', out) = send_raw s bs dst in (answered r, s', out)
    send_bytes s bs (Destination.node_list dsts) = broadcast s bs dsts
    send_bytes s bs dst = (panic, s, [])

    with_iovec : Corral L → Destination → Outcome CodecError (List ℕ × List ℕ) → Served
    unfolding send_bytes
    with_iovec s dst (ok (a, b)) = send_bytes s (a ++ b) dst
    with_iovec s dst (err e) = (err (no_packet e), s, [])
    with_iovec s dst panic = (panic, s, [])

    -- `serve`, with `write_vectored` of the packet's two slices.
    unfoldable pub serve : Corral L → Message → Served
    unfolding with_iovec
    serve s msg =
        let ((packet, from), dst) = split msg in
        let sent = with_iovec s dst (to_iovec B P packet) in
        if is_remote dst then sent else (ok (some msg), s, [])
