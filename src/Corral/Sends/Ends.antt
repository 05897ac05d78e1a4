-- ===== src/Corral/Sends/Ends.antt =====
-- Which messages end at the connections to other sidecars.
use kaze.Base.{
  ℕ, ◌≡◌, refl, List, [], ◌∷◌, ◌++◌, Bool, true, false, Outcome, ok, err, panic, Option, some,
}
use kaze.Extern.Lru.{LruCrate}
use kaze.Extern.Bytes.{BytesCrate}
use kaze.Protocol.Hdr.{Prost}
use kaze.Protocol.Prefix.{CodecError}
use kaze.Protocol.Packet.{to_iovec}
use kaze.Protocol.Message.{Message, SocketAddr, Destination, is_remote, split}
use kaze.Corral.{Corral, CorralError, Work}
use kaze.Corral.Sends.{
  answered, judged, broadcast, send_raw, send_all, send_bytes, with_iovec, serve,
}

-- A message is not passed on.
abbrev pub Stops : {E M : Type 0} → Outcome E (Option M) → Type 0
Stops (ok (some m)) = ⊥
Stops _ = Unit

module _ {Conn Err : Type 0} (L : LruCrate SocketAddr Conn)
    (work : Corral L → SocketAddr → Work Conn Err × Corral L)
    (write : Conn → List ℕ → Outcome Err ℕ) (B : BytesCrate) (P : Prost) where
  answered-Stops : (r : Outcome (CorralError Err) (Unit {0})) → Stops (answered L work write r)
  unfolding answered
  answered-Stops (ok t) = tt
  answered-Stops (err e) = tt
  answered-Stops panic = tt

  judged-Stops :
      (errors : List (CorralError Err)) (panicked : Bool)
      → Stops (judged L work write errors panicked)
  unfolding judged
  judged-Stops errors true = tt
  judged-Stops [] false = tt
  judged-Stops (e ∷ es) false = tt

  send_bytes-Stops :
      (s : Corral L) (bs : List ℕ) (dst : Destination)
      → Stops (send_bytes L work write B P s bs dst).0
  unfolding send_bytes broadcast
  send_bytes-Stops s bs (Destination.node dst) = answered-Stops (send_raw L work write s bs dst).0
  send_bytes-Stops s bs (Destination.node_list dsts) =
      let sent = send_all L work write s bs dsts in judged-Stops sent.0 sent.1
  send_bytes-Stops s bs Destination.drop = tt
  send_bytes-Stops s bs Destination.host = tt

  with_iovec-Stops :
      (s : Corral L) (dst : Destination) (o : Outcome CodecError (List ℕ × List ℕ))
      → Stops (with_iovec L work write B P s dst o).0
  unfolding with_iovec
  with_iovec-Stops s dst (ok (a, b)) = send_bytes-Stops s (a ++ b) dst
  with_iovec-Stops s dst (err e) = tt
  with_iovec-Stops s dst panic = tt

  -- A message for other sidecars is not passed on, whatever comes of it.
  pub serve-Stops :
      (s : Corral L) (msg : Message)
      → is_remote msg.destination ≡ true
      → Stops (serve L work write B P s msg).0
  unfolding serve split
  serve-Stops s msg away = rw away (with_iovec-Stops s msg.destination (to_iovec B P msg.packet))

  -- Any other message is passed on, and nothing is sent.
  pub serve_here :
      (s : Corral L) (msg : Message)
      → is_remote msg.destination ≡ false
      → serve L work write B P s msg ≡ (ok (some msg), s, [])
  unfolding serve split
  serve_here s msg here = rw here refl
