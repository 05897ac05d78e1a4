-- ===== src/Tests/Edge.antt =====
-- A message that crosses a channel, by the theorem and by running the code, and the halves of a channel.
use kaze.Base.{ℕ, ◌≡◌, refl, arith, List, [], ◌∷◌, false, inl, ok, ◌>>=◌}
use kaze.Extern.Bytes.{to_le_bytes}
use kaze.Ring.Queue.{Queue}
use kaze.Ring.Layout.{Holds, Straight, Stored}
use kaze.Protocol.Buf as Buf
use kaze.Protocol.Packet.{as_buf, body, remaining, chunk, advance}
use kaze.Protocol.Codec.{put_buf}
use kaze.Protocol.Message.{Message, Source, Destination, is_local}
use kaze.Edge.Transfer.{Delivered, read_packet-serve}
use kaze.Tests.BytesModel.{bytes}
use kaze.Tests.Protocol.{prost, plain-Codes, packet}

abbrev message : Message
message = record { packet = packet; source = Source.host; destination = Destination.host }

-- Twenty-four bytes for each direction.
abbrev pub fresh : Queue
fresh = record {
  size = 24;
  used = 0;
  reading = false;
  head = 0;
  writing = false;
  tail = 0;
  bytes = λ i. 0;
}

pub fresh-Straight : Straight 24 0 0 0 (λ i. 0) []
unfolding Stored
fresh-Straight = record {
  end = 0;
  stored = refl;
  at_tail = inl (refl, omega arith);
  used_lem = refl;
}

pub fresh-Holds : Holds fresh []
fresh-Holds = record {
  bounds = record {
    size_aligned = refl;
    size_small = omega arith;
    head_in = omega arith;
    tail_in = omega arith;
    head_aligned = refl;
    tail_aligned = refl;
  };
  layout = inl fresh-Straight;
}

-- The bytes of the packet's frame.
abbrev wire : List ℕ
wire = 1 ∷ 0 ∷ 0 ∷ 0 ∷ 7 ∷ 1 ∷ 2 ∷ []

written : (as_buf bytes prost packet >>= put_buf bytes prost 3 []) ≡ ok wire
unfolding as_buf put_buf remaining chunk advance body Buf.remaining Buf.chunk to_le_bytes
written = refl

read_packet-serve_example : Delivered tt (λ n. tt) bytes prost [] (Buf.new []) fresh message
read_packet-serve_example =
    read_packet-serve tt (λ n. tt) bytes prost [] (Buf.new []) fresh message wire plain-Codes
      (omega arith) (unfold is_local in refl) written (omega arith) fresh-Holds fresh-Straight refl
      refl (inl (omega arith, omega arith))
