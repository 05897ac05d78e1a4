-- ===== src/Sidecar/Pipeline/Ways.antt =====
-- Which way a message leaves the pipeline.
use kaze.Base.{
  ◌≡◌, refl, ◌∙◌, [], ◌++◌, append-nil, Bool-cases, Outcome, ok, err, panic, ◌>>=◌, Option, none,
  some, ◌⊎◌, inl, inr,
}
use mathlib.Core.Option.{map}
use kaze.Extern.Lru.{LruCrate}
use kaze.Extern.Bytes.{BytesCrate}
use kaze.Ring.Queue.{Queue}
use kaze.Protocol.Hdr.{Prost}
use kaze.Protocol.Message.{SocketAddr, PacketWithAddr, Message, from, is_remote}
use kaze.Resolver.Trait.{Resolver}
use kaze.Resolver.Service as Routing
use kaze.Corral.Sends.Ends.{Stops, serve-Stops, serve_here}
use kaze.Edge.Calls as Edge
use kaze.Edge.Calls.{map_err}
use kaze.Sidecar.Pipeline.{
  Failure, not_forwarded, Parts, World, Reply, before, sink_message, resolve, track, filter_message,
  forward, deliver, send_on, serve_message, pipeline,
}

module _ {Conn : Type 0} {R : Resolver} {L : LruCrate SocketAddr Conn} where
  -- Nothing has gone out, and the table of connections is as it was.
  abbrev pub Unsent : World R L → World R L → Type 0
  Unsent w v = (v.sent ≡ w.sent) × (v.corral ≡ w.corral)

  -- Of the queue to the host and the connections, a call has left one as it was.
  abbrev pub OneWay : {F A : Type 0} → World R L → Reply F (World R L) A → Type 0
  OneWay w none = Unit
  OneWay w (some (r, v)) = (v.host ≡ w.host) ⊎ Unsent w v

  abbrev pub Untouched : {F A : Type 0} → World R L → Reply F (World R L) A → Type 0
  Untouched w none = Unit
  Untouched w (some (r, v)) = (v.host ≡ w.host) × Unsent w v

  before-OneWay :
      {F A B : Type 0} (w : World R L) (o : Reply F (World R L) (Option A))
      (rest : A → World R L → Reply F (World R L) (Option B))
      → Untouched w o
      → ((a : A) (v : World R L) → v.host ≡ w.host → Unsent w v → OneWay w (rest a v))
      → OneWay w (before o rest)
  unfolding before
  before-OneWay w none rest u next = tt
  before-OneWay w (some (ok none, v)) rest u next = inl u.0
  before-OneWay w (some (ok (some a), v)) rest u next = next a v u.0 u.1
  before-OneWay w (some (err e, v)) rest u next = inl u.0
  before-OneWay w (some (panic, v)) rest u next = inl u.0

  stopped-OneWay :
      {F E A B : Type 0} (w v : World R L) (f : E → F) (o : Outcome E (Option A))
      (rest : A → World R L → Reply F (World R L) (Option B))
      → v.host ≡ w.host
      → Stops o
      → OneWay w (before (some (map_err f o, v)) rest)
  unfolding before
  stopped-OneWay w v f (ok none) rest e h = inl e
  stopped-OneWay w v f (ok (some a)) rest e h = absurd h
  stopped-OneWay w v f (err x) rest e h = inl e
  stopped-OneWay w v f panic rest e h = inl e

  map-OneWay :
      {F A B : Type 0} (w : World R L) (f : Outcome F A → Outcome F B) (o : Reply F (World R L) A)
      → OneWay w o
      → OneWay w (map (λ (r, v). (f r, v)) o)
  map-OneWay w f none h = tt
  map-OneWay w f (some (r, v)) h = h

  filtered-Untouched :
      {F E A : Type 0} (w v : World R L) (f : E → F) (o : Outcome E A)
      → v.host ≡ w.host
      → Unsent w v
      → Untouched w (some (map_err f o, v))
  filtered-Untouched w v f o e u = (e, u)

module _ {Conn Err Io FE : Type 0} (R : Resolver) (L : LruCrate SocketAddr Conn) (B : BytesCrate)
    (P : Prost) (S : Parts Err Io FE L) where
  -- What is delivered to the host is not forwarded.
  deliver-OneWay :
      (msg : Message) (w v : World R L)
      → Unsent w v
      → OneWay w (before (deliver R L B P S msg v) sink_message)
  unfolding deliver before
  deliver-OneWay msg w v u = go (Edge.serve S.last_os_error S.unknown B P S.changes v.host msg)
    where
      go :
          (o : Option (Outcome (Edge.EdgeError Io) (Option Message) × Queue))
          → OneWay {F = Failure Err Io FE} w (
              before
                (map (λ (r, host). (map_err Failure.not_delivered r, record v { host = host })) o)
                sink_message)
      go none = tt
      go (some (ok none, q)) = inr u
      go (some (ok (some m), q)) = inr u
      go (some (err e, q)) = inr u
      go (some (panic, q)) = inr u

  send_on-OneWay :
      (msg : Message) (w v : World R L)
      → v.host ≡ w.host
      → Unsent w v
      → OneWay w (send_on R L B P S msg v)
  unfolding send_on forward before deliver
  send_on-OneWay msg w v e u = elim (Bool-cases (is_remote msg.destination)) [
    | inl away ↦
        stopped-OneWay w _ not_forwarded _ _ e (serve-Stops L S.work S.write B P v.corral msg away)
    | inr here ↦
        rw (serve_here L S.work S.write B P v.corral msg here)
          (deliver-OneWay msg w (record v { sent = v.sent ++ [] }) (append-nil v.sent ∙ u.0, u.1))
  ]

  -- Whatever the plugins and the resolver do with a packet, of the queue to the host and the connections to
  -- other sidecars it changes at most one: what goes to the host is not sent on, and what is sent on does
  -- not reach the host.
  pub pipeline-OneWay : (p : PacketWithAddr) (w : World R L) → OneWay w (pipeline R L B P S p w)
  unfolding pipeline serve_message resolve track filter_message
  pipeline-OneWay p w =
      map-OneWay w (λ r. r >>= λ _. ok tt) (serve_message R L B P S (from p) w)
        (before-OneWay w _ _ (refl, (refl, refl))
          (λ m v e u.
            before-OneWay w _ _ (e, u)
              (λ m' v' e' u'.
                before-OneWay w _ _ (e', u')
                  (λ m'' v'' e'' u''. send_on-OneWay m'' w v'' e'' u''))))

  -- A packet that the resolver has no destination for is taken without a word: the host, the connections
  -- and the tracker see nothing of it, so that a request is not answered by a timeout either.
  pub pipeline_unrouted :
      (p : PacketWithAddr) (w : World R L)
      → (Routing.serve R S.draw S.ident (from p) w.resolver).0 ≡ none
      → pipeline R L B P S p w
        ≡ some
            (ok tt, record w { resolver = (Routing.serve R S.draw S.ident (from p) w.resolver).1 })
  unfolding pipeline serve_message resolve before
  pipeline_unrouted p w e = simp e refl
