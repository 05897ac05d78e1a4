-- ===== src/Protocol/Codec.antt =====
-- crates/kaze-protocol/src/codec.rs: the network codec,
-- `[total_size(4)][hdr_size(4)][hdr][body]`.
pub mod Put
pub mod IoVec
pub mod Host
pub mod Overrun
pub mod RoundTrip
pub mod Framing
use kaze.Base.{
  ℕ, zero, suc, ◌+◌, List, [], Bool, if◌then◌else◌, ltb, length, Outcome, ok, err, panic, ◌>>=◌,
  ◌>>◌, bail_if, true, false, Option, none, some,
}
use kaze.Extern.Bytes.{BytesCrate}
use kaze.Protocol.Hdr.{Hdr, Prost}
use kaze.Protocol.Buf as Buf
use kaze.Protocol.Buf.{BufWrapper}
use kaze.Protocol.Prefix.{
  CodecError, invalid_header_size, failed_to_decode, get_u32_le, or_panic, or_err,
}
use kaze.Protocol.Packet as Packets
use kaze.Protocol.Packet.{Packet, PacketBuf}

module _ (B : BytesCrate) (P : Prost) where
  -- What is done with one frame `[hdr_size(4)][hdr][body]` of `size` bytes.
  unfoldable pub decode_frame : ℕ → List ℕ → Outcome CodecError Packet
  decode_frame size bs = do
    (hdr_size, reader) ← get_u32_le B (Buf.new bs)
    bail_if (ltb size hdr_size) invalid_header_size
    rest ← Buf.chunk reader
    hdr ← or_err failed_to_decode (P.decode (B.take_buf rest hdr_size))
    ok (Packets.from_node_buf hdr (Buf.advance (Buf.new bs) (hdr_size + 4)))

  -- `decode`: what stays in `src`, and the result. After a panic nothing reads `src`.
  unfoldable pub decode : List ℕ → List ℕ × Outcome CodecError (Option Packet)
  decode src = if ltb (length src) 4 then (src, ok none) else elim (B.get_u32_le src) [
    | none ↦ (src, panic)
    | some size ↦ if ltb (length src) size then (src, ok none) else elim (B.advance src 4) [
      | none ↦ (src, panic)
      | some src' ↦ elim (B.split_to src' size) [
        | none ↦ (src', panic)
        | some (bs, rest) ↦ (rest, decode_frame size bs >>= λ p. ok (some p))
      ]
    ]
  ]

  -- `BufMut::put` from a `Buf`: chunk after chunk, until nothing remains.
  unfoldable pub put_buf : ℕ → List ℕ → PacketBuf → Outcome CodecError (List ℕ)
  put_buf zero dst buf = panic
  put_buf (suc fuel) dst buf = do
    n ← Packets.remaining buf
    elim (ltb 0 n) [
      | false ↦ ok dst
      | true ↦ do
        c ← Packets.chunk buf
        buf' ← Packets.advance B buf (length c)
        put_buf fuel (B.put dst c) buf'
    ]

  -- A packet's buffer has at most two chunks.
  unfoldable pub encode : Packet → List ℕ → Outcome CodecError (List ℕ)
  encode item dst = do
    buf ← Packets.as_buf B P item
    n ← Packets.remaining buf
    put_buf 3 (B.put_u32_le dst n) buf
