-- ===== src/Sidecar/Pipeline.antt =====
-- crates/kaze-sidecar/src/builder.rs: the pipeline, which a message goes through from one service to the
-- next, until one takes it. The order of the layers is tower's: the first one is the outermost.
pub mod Ways
pub mod Arrival
pub mod Relay
pub mod Hosts
use kaze.Base.{ℕ, List, ◌++◌, Bool, Outcome, ok, err, panic, ◌>>=◌, Option, none, some}
use mathlib.Core.Option.{map}
use kaze.Extern.Lru.{LruCrate}
use kaze.Extern.Bytes.{BytesCrate}
use kaze.Ring.Queue.{Queue}
use kaze.Protocol.Hdr.{Prost}
use kaze.Protocol.Message.{SocketAddr, PacketWithAddr, Message, from}
use kaze.Resolver.Trait.{Resolver}
use kaze.Resolver.Service as Routing
use kaze.Tracker.{Tracker, record_message}
use kaze.Corral.{Corral, Work}
use kaze.Corral.Sends as Sends
use kaze.Corral.Sends.{ServeError}
use kaze.Edge.Calls as Edge
use kaze.Edge.Calls.{EdgeError, map_err}

-- An `anyhow::Error`, by the service that it comes from.
pub data Failure (Err Io FE : Type 0) : Type 0 where
  not_filtered : FE → Failure Err Io FE
  not_forwarded : ServeError Err → Failure Err Io FE
  not_delivered : EdgeError Io → Failure Err Io FE

-- What a sidecar is built with: its ident, the draws of its random routes, its plugins' filter, its
-- connections, and what the others do to the channel while the edge waits.
pub record Parts {Conn : Type 0} (Err Io FE : Type 0) (L : LruCrate SocketAddr Conn) : Type 0 where
  pub ident : ℕ
  pub draw : ℕ → Bool
  pub filter : Message → Outcome FE (Option Message)
  pub work : Corral L → SocketAddr → Work Conn Err × Corral L
  pub write : Conn → List ℕ → Outcome Err ℕ
  pub last_os_error : Io
  pub unknown : ℕ → Io
  pub changes : List (Queue → Queue)

-- What the services keep, the queue to the host, and what went out on the connections.
pub record World {Conn : Type 0} (R : Resolver) (L : LruCrate SocketAddr Conn) : Type 0 where
  pub resolver : R.State
  pub tracker : Tracker
  pub corral : Corral L
  pub host : Queue
  pub sent : List (Conn × List ℕ)

-- What a call comes to, and what it leaves; `none` is a call that still waits for room in the channel.
abbrev pub Reply : Type 0 → Type 0 → Type 0 → Type 0
Reply F W A = Option (Outcome F A × W)

-- `FilterChain::serve`, with the state that its services share.
unfoldable pub before :
    {F W A B : Type 0}
    → Reply F W (Option A)
    → (A → W → Reply F W (Option B))
    → Reply F W (Option B)
before none rest = none
before (some (ok none, w)) rest = some (ok none, w)
before (some (ok (some msg), w)) rest = rest msg w
before (some (err e, w)) rest = some (err e, w)
before (some (panic, w)) rest = some (panic, w)

-- `SinkMessage` under `map_response(|_| Some(()))`
abbrev pub sink_message : {F W : Type 0} → Message → W → Reply F W (Option (Unit {0}))
sink_message msg w = some (ok (some tt), w)

module _ {Conn Err Io FE : Type 0} (R : Resolver) (L : LruCrate SocketAddr Conn) (B : BytesCrate)
    (P : Prost) (S : Parts Err Io FE L) where
  unfoldable pub resolve :
      Message → World R L → Reply (Failure Err Io FE) (World R L) (Option Message)
  resolve msg w =
      let (o, resolver) = Routing.serve R S.draw S.ident msg w.resolver in
      some (ok o, record w { resolver = resolver })

  unfoldable pub track :
      Message → World R L → Reply (Failure Err Io FE) (World R L) (Option Message)
  track msg w =
      let (tracker, msg') = record_message w.tracker msg in
      some (ok (some msg'), record w { tracker = tracker })

  unfoldable pub filter_message :
      Message → World R L → Reply (Failure Err Io FE) (World R L) (Option Message)
  filter_message msg w = some (map_err not_filtered (S.filter msg), w)

  unfoldable pub forward :
      Message → World R L → Reply (Failure Err Io FE) (World R L) (Option Message)
  forward msg w =
      let (r, corral, out) = Sends.serve L S.work S.write B P w.corral msg in
      some (map_err not_forwarded r, record w { corral = corral; sent = w.sent ++ out })

  unfoldable pub deliver :
      Message → World R L → Reply (Failure Err Io FE) (World R L) (Option Message)
  deliver msg w =
      map (λ (r, host). (map_err not_delivered r, record w { host = host }))
        (Edge.serve S.last_os_error S.unknown B P S.changes w.host msg)

  -- The layers after the filter.
  unfoldable pub send_on :
      Message → World R L → Reply (Failure Err Io FE) (World R L) (Option (Unit {0}))
  send_on msg w = before (forward msg w) (λ m v. before (deliver m v) sink_message)

  -- The layers.
  unfoldable pub serve_message :
      Message → World R L → Reply (Failure Err Io FE) (World R L) (Option (Unit {0}))
  serve_message msg w =
      before (resolve msg w)
        (λ m v. before (track m v) (λ m' v'. before (filter_message m' v') send_on))

  -- The pipeline that `build` makes, of a packet and the address that it came from.
  unfoldable pub pipeline :
      PacketWithAddr → World R L → Reply (Failure Err Io FE) (World R L) (Unit {0})
  pipeline p w = map (λ (r, v). (r >>= λ _. ok tt, v)) (serve_message (from p) w)
