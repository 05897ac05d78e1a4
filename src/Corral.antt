-- ===== src/Corral.antt =====
-- crates/kaze-sidecar/src/plugins/corral: the connections to other sidecars. Metrics and logging are
-- left out.
pub mod Reads
pub mod Sends
pub mod Delivery
use kaze.Base.{
  ℕ, ◌≡◌, List, [], ◌∷◌, ◌++◌, length, Bool, true, false, if◌then◌else◌, Option, none, some,
  Outcome, ok, err, panic, ◌>>=◌,
}
use kaze.Extern.Lru.{LruCrate}
use kaze.Protocol.Message.{SocketAddr}

-- What `Group::work` returns: to the call whose work was done, and to one that shared it.
pub data Work (Conn Err : Type 0) : Type 0 where
  led : Outcome Err Conn → Work Conn Err
  shared : Option Conn → Work Conn Err

pub data CorralError (Err : Type 0) : Type 0 where
  not_connected : SocketAddr → Err → CorralError Err
  not_sent : Err → CorralError Err

-- `sock_map`, and the addresses whose connections are being read.
pub record Corral {Conn : Type 0} (L : LruCrate SocketAddr Conn) : Type 0 where
  pub sock_map : L.Cache
  pub sources : List SocketAddr

module _ {Conn : Type 0} (L : LruCrate SocketAddr Conn) where
  -- `remove_connection`, which also the drop of a `ConnSource` starts.
  unfoldable pub remove_connection : Corral L → SocketAddr → Corral L
  remove_connection s addr = record s { sock_map = L.pop s.sock_map addr }

  -- `add_connection_with_pending`; `add_connection` and `connect` are this with their pending time.
  unfoldable pub add_connection : Corral L → Conn → SocketAddr → Conn × Corral L
  add_connection s conn addr =
      (conn, record { sock_map = L.put s.sock_map addr conn; sources = addr ∷ s.sources })

worked : {Conn Err : Type 0} → SocketAddr → Work Conn Err → Outcome (CorralError Err) (Option Conn)
worked addr (led (ok conn)) = ok (some conn)
worked addr (shared (some conn)) = ok (some conn)
worked addr (shared none) = ok none
worked addr (led (err e)) = err (not_connected addr e)
worked addr (led panic) = panic

module _ {Conn Err : Type 0} (L : LruCrate SocketAddr Conn) where
  -- `connect`, of what `TcpStream::connect` comes to.
  unfoldable pub connect : Corral L → SocketAddr → Outcome Err Conn → Outcome Err Conn × Corral L
  connect s addr (ok conn) = let (c, s') = add_connection L s conn addr in (ok c, s')
  connect s addr (err e) = (err e, s)
  connect s addr panic = (panic, s)

  found :
      SocketAddr
      → Option Conn
      → Corral L
      → Work Conn Err × Corral L
      → Outcome (CorralError Err) (Option Conn) × Corral L
  unfolding worked
  found addr (some sock) s w = (ok (some sock), record s { sock_map = L.touch s.sock_map addr })
  found addr none s (w, s') = (worked addr w, s')

  -- `find_or_connect`, where `work` is what the group makes of the address.
  unfoldable pub find_or_connect :
      (Corral L → SocketAddr → Work Conn Err × Corral L)
      → Corral L
      → SocketAddr
      → Outcome (CorralError Err) (Option Conn) × Corral L
  unfolding found
  find_or_connect work s addr = found addr (L.get s.sock_map addr) s (work s addr)
