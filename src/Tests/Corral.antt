-- ===== src/Tests/Corral.antt =====
-- The connections' theorems at concrete messages, over a table that never drops an entry.
use kaze.Base.{
  ℕ, ◌≡◌, refl, arith, List, [], ◌∷◌, length, Bool, true, false, if◌then◌else◌, ◌==◌, Option, none,
  some, Outcome, ok, err,
}
use kaze.Extern.Lru.{LruCrate}
use kaze.Extern.Bytes.{to_le_bytes}
use kaze.Protocol.Buf as Buf
use kaze.Protocol.Packet.{as_buf, remaining, body, to_iovec}
use kaze.Protocol.Message.{Message, SocketAddr, Node, Source, Destination}
use kaze.Corral.{Corral, Work, shared}
use kaze.Corral.Reads.{packet, closed, main_loop_inner, read_loop}
use kaze.Corral.Delivery.{Arrives, serve-Arrives}
use kaze.Tests.BytesModel.{bytes}
use kaze.Tests.Protocol as Protocol
use kaze.Tests.Protocol.{prost, plain-Codes}

abbrev same_addr : SocketAddr → SocketAddr → Bool
same_addr a b = if a.ip == b.ip then a.port == b.port else false

abbrev pub lru : LruCrate SocketAddr ℕ
lru = record {
  Cache = SocketAddr → Option ℕ;
  get = λ c k. c k;
  touch = λ c k. c;
  put = λ c k v j. if same_addr j k then some v else c j;
  pop = λ c k j. if same_addr j k then none else c j;
  get-touch = λ c k j. refl;
  get-put = λ c k v. ground arith;
  get-pop = λ c k. ground arith;
}

abbrev peer : Node
peer = record { ident = 9; addr = record { ip = 1; port = 2 } }

-- Connection 4 leads to the peer.
abbrev table : Corral lru
table = record { sock_map = λ a. some 4; sources = [] }

abbrev message : Message
message = record {
  packet = Protocol.packet;
  source = Source.host;
  destination = Destination.node peer;
}

abbrev pub work : Corral lru → SocketAddr → Work ℕ (Unit {0}) × Corral lru
work s a = (shared none, s)

abbrev pub takes_all : ℕ → List ℕ → Outcome (Unit {0}) ℕ
takes_all c bs = ok (length bs)

abbrev takes_three : ℕ → List ℕ → Outcome (Unit {0}) ℕ
takes_three c bs = ok 3

serve-Arrives_example : Arrives lru work takes_all bytes prost table message 4
unfolding as_buf remaining body Buf.remaining Buf.chunk to_le_bytes
serve-Arrives_example =
    serve-Arrives lru work takes_all bytes prost table message peer 4 7 refl plain-Codes
      (omega arith) refl (omega arith) refl (λ bs. refl)

-- The eleven bytes of the packet in two slices.
abbrev head : List ℕ
head = 7 ∷ 0 ∷ 0 ∷ 0 ∷ 1 ∷ 0 ∷ 0 ∷ 0 ∷ 7 ∷ []

slices : to_iovec bytes prost Protocol.packet ≡ ok (head, 1 ∷ 2 ∷ [])
unfolding to_iovec body Buf.chunk to_le_bytes
slices = refl

read_runs :
    main_loop_inner {Err = Unit {0}} true
      (packet Protocol.packet (ok tt) ∷ packet Protocol.packet (err tt) ∷ closed ∷ [])
    ≡ (Protocol.packet ∷ Protocol.packet ∷ [], some (err tt))
unfolding main_loop_inner read_loop
read_runs = refl
