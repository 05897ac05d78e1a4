-- ===== src/Tests/Sidecar.antt =====
-- Two sidecars, with the idents 3 and 4, and a packet from the host of the one to that of the other.
use kaze.Base.{
  ℕ, ◌≡◌, ◌≢◌, ◌+◌, ◌<◌, refl, arith, List, [], ◌∷◌, ◌++◌, map, length, Option, none, some, Outcome,
  ok, err, panic, inl, ◌⊎◌, ◌>>=◌,
}
use kaze.Extern.Bytes.{to_le_bytes}
use kaze.Protocol.Hdr.{Hdr, Prost, Codes, RouteType, dst_ident}
use kaze.Protocol.Buf as Buf
use kaze.Protocol.Packet.{Packet, from_hdr, body_mut, as_buf, remaining, body, chunk, advance}
use kaze.Protocol.Codec.{put_buf}
use kaze.Protocol.Message.{SocketAddr, Message, Destination, set_destination, from, is_local}
use kaze.Resolver.Local.{local, get_node}
use kaze.Resolver.Service as Routing
use kaze.Tracker.{record_message}
use kaze.Sidecar.Pipeline.{Parts, World, pipeline}
use kaze.Sidecar.Pipeline.Ways.{OneWay, pipeline-OneWay, pipeline_unrouted}
use kaze.Sidecar.Pipeline.Arrival.{Reaches, pipeline-Reaches}
use kaze.Sidecar.Pipeline.Hosts.{Relayed, pipeline-Relayed}
use kaze.Tests.BytesModel.{bytes}
use kaze.Tests.MapModel.{Entries, maps, insert_entry}
use kaze.Tests.Protocol.{plain}
use kaze.Tests.Corral.{lru, work, takes_all}
use kaze.Tests.Edge.{fresh, fresh-Holds, fresh-Straight}

abbrev routed : ℕ → ℕ → Hdr
routed n i = record (plain n) { route_type = some (dst_ident i) }

abbrev code_of : Option RouteType → ℕ
code_of (some (dst_ident i)) = i
code_of _ = 0

-- A code for headers with nothing set but the source and the ident that they are routed to.
abbrev read_routed : List ℕ → Option Hdr
read_routed (n ∷ i ∷ []) = some (routed n i)
read_routed bs = none

abbrev prost : Prost
prost = record {
  encode = λ h. h.src_ident ∷ code_of h.route_type ∷ [];
  decode = read_routed;
  encoded_len = λ h. 2;
}

routed-Codes : Codes prost (routed 3 4)
routed-Codes = record { decode-encode = refl; encoded_len_lem = refl; fits = omega arith }

abbrev packet : Packet
packet = body_mut (1 ∷ 2 ∷ []) (from_hdr (routed 3 4))

abbrev addr_of_four : SocketAddr
addr_of_four = record { ip = 1; port = 4 }

abbrev addr_of_three : SocketAddr
addr_of_three = record { ip = 1; port = 3 }

abbrev parts : ℕ → Parts (Unit {0}) (Unit {0}) (Unit {0}) lru
parts ident = record {
  ident = ident;
  draw = λ n. kaze.Base.true;
  filter = λ m. ok (some m);
  work = work;
  write = takes_all;
  last_os_error = tt;
  unknown = λ n. tt;
  changes = [];
}

abbrev known : Entries SocketAddr
known = insert_entry SocketAddr ([], tt) 4 addr_of_four

-- Connection 4 leads to every address.
abbrev world : World (local (maps SocketAddr)) lru
world = record {
  resolver = known;
  tracker = record { next_seq = 1; channel = [] };
  corral = record { sock_map = λ a. some 4; sources = [] };
  host = fresh;
  sent = [];
}

sized : (as_buf bytes prost packet >>= remaining) ≡ ok 8
unfolding as_buf remaining body Buf.remaining Buf.chunk to_le_bytes
sized = refl

four_known : get_node (maps SocketAddr) 4 known ≡ some addr_of_four
unfolding get_node
four_known = refl

pipeline-Relayed_example :
    Relayed
      (local (maps SocketAddr))
      lru
      bytes
      prost
      (parts 3)
      (parts 4)
      (Buf.new [])
      packet
      addr_of_three
      4
      world
      world
pipeline-Relayed_example =
    pipeline-Relayed (local (maps SocketAddr)) lru bytes prost (parts 3) (parts 4) (Buf.new [])
      packet addr_of_four addr_of_three 4 8 world world refl (λ e. absurd (omega (arith, e))) refl
      four_known refl (λ bs. refl) (λ m. refl) (λ m. refl) routed-Codes (omega arith) sized
      (omega arith) fresh-Holds fresh-Straight refl refl (inl (omega arith, omega arith))

pipeline-OneWay_example :
    OneWay world (pipeline (local (maps SocketAddr)) lru bytes prost (parts 4) (packet, none) world)
pipeline-OneWay_example =
    pipeline-OneWay (local (maps SocketAddr)) lru bytes prost (parts 4) (packet, none) world

abbrev wire : List ℕ
wire = 2 ∷ 0 ∷ 0 ∷ 0 ∷ 3 ∷ 4 ∷ 1 ∷ 2 ∷ []

written : (as_buf bytes prost packet >>= put_buf bytes prost 3 []) ≡ ok wire
unfolding as_buf put_buf remaining chunk advance body Buf.remaining Buf.chunk to_le_bytes
written = refl

abbrev for_host : Message
for_host = record {
  packet = packet;
  source = kaze.Protocol.Message.Source.host;
  destination = Destination.host;
}

pipeline-Reaches_example :
    Reaches
      (local (maps SocketAddr))
      lru
      bytes
      prost
      (parts 4)
      (Buf.new [])
      (packet, none)
      world
      for_host
pipeline-Reaches_example =
    pipeline-Reaches (local (maps SocketAddr)) lru bytes prost (parts 4) (Buf.new []) (packet, none)
      world for_host wire refl (unfold from in unfold record_message in refl)
      (unfold is_local in refl) routed-Codes (omega arith) written (omega arith) fresh-Holds
      fresh-Straight refl refl (inl (omega arith, omega arith))

abbrev unrouted : Packet
unrouted = from_hdr (plain 7)

unrouted_runs :
    pipeline (local (maps SocketAddr)) lru bytes prost (parts 4) (unrouted, none) world
    ≡ some (ok tt, world)
unfolding Routing.serve Routing.dispatch Routing.route from
unrouted_runs =
    pipeline_unrouted (local (maps SocketAddr)) lru bytes prost (parts 4) (unrouted, none) world
      refl
