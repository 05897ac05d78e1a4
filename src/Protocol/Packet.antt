-- ===== src/Protocol/Packet.antt =====
-- crates/kaze-protocol/src/packet.rs: packets, and the buffers that they are written from.
pub mod Drain
pub mod Wire
use kaze.Base.{
  ℕ, ◌+◌, ◌-◌, ◌<◌, List, [], ◌∷◌, ◌++◌, Bool, true, false, if◌then◌else◌, ltb, length, min,
  Outcome, ok, err, panic, ◌>>=◌, Option, none, some,
}
use kaze.Extern.Bytes.{BytesCrate}
use kaze.Protocol.Hdr.{Hdr, Prost, RetCode, RpcType, rsp, seq, to_u32}
use kaze.Protocol.Buf as Buf
use kaze.Protocol.Buf.{BufWrapper}
use kaze.Protocol.Prefix.{CodecError, decode_packet, or_panic}

pub data PacketBody : Type 0 where
  empty : PacketBody
  from_buf : BufWrapper → PacketBody
  from_host : BufWrapper → PacketBody
  from_node : BufWrapper → PacketBody

pub record Packet : Type 0 where
  pub hdr_dirty : Bool
  pub hdr : Hdr
  pub body : PacketBody

abbrev pub from_node_buf : Hdr → BufWrapper → Packet
from_node_buf hdr src = record { hdr_dirty = false; hdr = hdr; body = from_node src }

abbrev pub from_hdr : Hdr → Packet
from_hdr hdr = record { hdr_dirty = false; hdr = hdr; body = empty }

unfoldable pub seq_or_zero : Hdr → ℕ
seq_or_zero hdr = elim (seq hdr) [ none ↦ 0 | some n ↦ n ]

unfoldable pub from_retcode : Hdr → RetCode → Packet
from_retcode hdr code =
    from_hdr (record hdr { ret_code = to_u32 code; rpc_type = some (rsp (seq_or_zero hdr)) })

-- `hdr_mut`, with what the caller does to the header: the packet is dirty from then on.
abbrev pub hdr_mut : (Hdr → Hdr) → Packet → Packet
hdr_mut f p = record p { hdr_dirty = true; hdr = f p.hdr }

body_of : PacketBody → Outcome CodecError (List ℕ)
body_of empty = ok []
body_of (from_buf w) = Buf.chunk w
body_of (from_host w) = Buf.chunk w
body_of (from_node w) = Buf.chunk w

unfoldable pub body : Packet → Outcome CodecError (List ℕ)
unfolding body_of
body p = body_of p.body

unfoldable pub body_len : Packet → Outcome CodecError ℕ
unfolding body
body_len p = do bs ← body p; ok (length bs)

-- `body_mut`, with what the caller puts into the fresh buffer.
abbrev pub body_mut : List ℕ → Packet → Packet
body_mut bs p = record p { body = from_buf (Buf.new bs) }

pub data PacketBuf : Type 0 where
  from_hdr_body : BufWrapper → List ℕ → PacketBuf
  from_whole : BufWrapper → PacketBuf

-- The two slices of `to_iovec`.
abbrev pub IoVec : Type 0
IoVec = List ℕ × List ℕ

unfoldable pub remaining : PacketBuf → Outcome CodecError ℕ
remaining (from_hdr_body hdr bs) = do n ← Buf.remaining hdr; ok (n + length bs)
remaining (from_whole w) = Buf.remaining w

unfoldable pub chunk : PacketBuf → Outcome CodecError (List ℕ)
chunk (from_hdr_body hdr bs) = do c ← Buf.chunk hdr; if ltb 0 (length c) then ok c else ok bs
chunk (from_whole w) = Buf.chunk w

module _ (B : BytesCrate) where
  unfoldable pub advance : PacketBuf → ℕ → Outcome CodecError PacketBuf
  advance (from_hdr_body hdr bs) cnt = do
    n ← Buf.remaining hdr
    bs' ← or_panic (B.advance bs (cnt - min cnt n))
    ok (from_hdr_body (Buf.advance hdr (min cnt n)) bs')
  advance (from_whole w) cnt = ok (from_whole (Buf.advance w cnt))

  module _ (P : Prost) where
    unfoldable pub from_host_buf : BufWrapper → Outcome CodecError Packet
    from_host_buf src = do
      (hdr, src') ← decode_packet B P (Buf.rewind src)
      ok (record { hdr_dirty = false; hdr = hdr; body = from_host src' })

    -- The pool's buffer is empty: it is cleared when it goes back.
    buf_of_hdr_body : Packet → Outcome CodecError PacketBuf
    buf_of_hdr_body p = do
      let prefix = B.put_u32_le [] (P.encoded_len p.hdr)
      bs ← body p
      ok (from_hdr_body (Buf.new (B.put prefix (P.encode p.hdr))) bs)

    buf_of_clean : Packet → PacketBody → Outcome CodecError PacketBuf
    buf_of_clean p (from_host w) = ok (from_whole (Buf.new w.inner))
    buf_of_clean p (from_node w) = ok (from_whole (Buf.new w.inner))
    buf_of_clean p b = buf_of_hdr_body p

    unfoldable pub as_buf : Packet → Outcome CodecError PacketBuf
    unfolding buf_of_clean buf_of_hdr_body
    as_buf p = if p.hdr_dirty then buf_of_hdr_body p else buf_of_clean p p.body

    iovec_of_hdr_body : Packet → Outcome CodecError IoVec
    iovec_of_hdr_body p = do
      bs ← body p
      let hdr_size = P.encoded_len p.hdr
      let sized = B.put_u32_le [] (4 + hdr_size + length bs)
      ok (B.put (B.put_u32_le sized hdr_size) (P.encode p.hdr), bs)

    iovec_of_whole : List ℕ → IoVec
    iovec_of_whole whole = (kaze.Extern.Bytes.to_le_bytes (length whole), whole)

    iovec_of_clean : Packet → PacketBody → Outcome CodecError IoVec
    iovec_of_clean p (from_host w) = ok (iovec_of_whole w.inner)
    iovec_of_clean p (from_node w) = ok (iovec_of_whole w.inner)
    iovec_of_clean p b = iovec_of_hdr_body p

    -- `as_iovec` and `to_iovec`.
    unfoldable pub to_iovec : Packet → Outcome CodecError IoVec
    unfolding iovec_of_clean iovec_of_hdr_body iovec_of_whole
    to_iovec p = if p.hdr_dirty then iovec_of_hdr_body p else iovec_of_clean p p.body
