-- ===== src/Protocol/Packet/Wire.antt =====
-- What a packet is written as, whichever way it was made: `[hdr_size(4)][hdr][body]`.
use kaze.Base.{
  ℕ, ◌^◌, ◌<◌, ◌≡◌, refl, arith, List, [], ◌++◌, length, append_assoc, Bool, true, false, ok,
}
use kaze.Base.{some}
use kaze.Extern.Bytes.{BytesCrate, to_le_bytes}
use kaze.Protocol.Hdr.{Hdr, Prost, Codes}
use kaze.Protocol.Buf as Buf
use kaze.Protocol.Buf.{BufWrapper}
use kaze.Protocol.Buf.Laws.{InRange, unread, chunk_lem}
use kaze.Protocol.Packet.{
  Packet, PacketBody, empty, from_buf, from_host, from_node, PacketBuf, from_hdr_body, from_whole,
  body, as_buf,
}
use kaze.Protocol.Packet.Drain.{IsReadable, contents}

module _ (P : Prost) where
  -- `wire` is the frame of a header and a body. The header stands in it in some encoding that is
  -- decoded to `hdr`, not always in the one that `encode` makes.
  pub record Frames (hdr : Hdr) (bs wire : List ℕ) : Type 0 where
    pub code : List ℕ
    pub shape : wire ≡ to_le_bytes (length code) ++ (code ++ bs)
    pub decodes : P.decode code ≡ some hdr
    pub narrow : length code < 2 ^ 32

  -- A buffer that a packet was read from: the whole frame, with the position at the body.
  pub record Backs (hdr : Hdr) (w : BufWrapper) : Type 0 where
    pub in_range : InRange w
    pub frames : Frames hdr (unread w) w.inner

  -- The body's buffer can be read, and a buffer that goes out whole still says what the header
  -- says, unless the packet is marked dirty.
  abbrev pub BodyIsValid : Bool → Hdr → PacketBody → Type 0
  BodyIsValid d hdr empty = Unit
  BodyIsValid d hdr (from_buf w) = InRange w
  BodyIsValid true hdr (from_host w) = InRange w
  BodyIsValid true hdr (from_node w) = InRange w
  BodyIsValid false hdr (from_host w) = Backs hdr w
  BodyIsValid false hdr (from_node w) = Backs hdr w

  abbrev pub IsValid : Packet → Type 0
  IsValid p = BodyIsValid p.hdr_dirty p.hdr p.body

  abbrev pub encoded : Hdr → List ℕ → List ℕ
  encoded hdr bs = to_le_bytes (length (P.encode hdr)) ++ (P.encode hdr ++ bs)

  pub encoded-Frames : (hdr : Hdr) (bs : List ℕ) → Codes P hdr → Frames hdr bs (encoded hdr bs)
  encoded-Frames hdr bs c = record {
    code = P.encode hdr;
    shape = refl;
    decodes = c.decode-encode;
    narrow = omega (arith, c.encoded_len_lem, c.fits);
  }

module _ (B : BytesCrate) (P : Prost) where
  -- What `as_buf` gives: a readable buffer that holds a frame of the packet's header and body.
  pub record AsBuf (p : Packet) : Type 0 where
    pub bs : List ℕ
    pub buf : PacketBuf
    pub body_lem : body p ≡ ok bs
    pub as_buf_lem : as_buf B P p ≡ ok buf
    pub readable : IsReadable buf
    pub frames : Frames P p.hdr bs (contents buf)

  from_parts :
      (d : Bool) (hdr : Hdr) (b : PacketBody) (bs : List ℕ)
      → Codes P hdr
      → body (record { hdr_dirty = d; hdr = hdr; body = b }) ≡ ok bs
      → as_buf B P (record { hdr_dirty = d; hdr = hdr; body = b })
        ≡ ok (
            from_hdr_body (Buf.new (B.put (B.put_u32_le [] (P.encoded_len hdr)) (P.encode hdr))) bs)
      → AsBuf (record { hdr_dirty = d; hdr = hdr; body = b })
  from_parts d hdr b bs c eb ea = record {
    bs = bs;
    buf = from_hdr_body (Buf.new (B.put (B.put_u32_le [] (P.encoded_len hdr)) (P.encode hdr))) bs;
    body_lem = eb;
    as_buf_lem = ea;
    readable = omega arith;
    frames =
        rw (B.put_lem, B.put_u32_le_lem, c.encoded_len_lem, append_assoc)
          (encoded-Frames P hdr bs c);
  }

  from_back :
      (hdr : Hdr) (b : PacketBody) (w : BufWrapper)
      → Backs P hdr w
      → body (record { hdr_dirty = false; hdr = hdr; body = b }) ≡ ok (unread w)
      → as_buf B P (record { hdr_dirty = false; hdr = hdr; body = b })
        ≡ ok (from_whole (Buf.new w.inner))
      → AsBuf (record { hdr_dirty = false; hdr = hdr; body = b })
  from_back hdr b w v eb ea = record {
    bs = unread w;
    buf = from_whole (Buf.new w.inner);
    body_lem = eb;
    as_buf_lem = ea;
    readable = omega arith;
    frames = v.frames;
  }

  by_body :
      (d : Bool) (hdr : Hdr) (b : PacketBody)
      → Codes P hdr
      → BodyIsValid P d hdr b
      → AsBuf (record { hdr_dirty = d; hdr = hdr; body = b })
  unfolding body as_buf
  by_body true hdr empty c v = from_parts true hdr empty [] c refl refl
  by_body false hdr empty c v = from_parts false hdr empty [] c refl refl
  by_body true hdr (from_buf w) c v =
      let e = chunk_lem w v in from_parts true hdr (from_buf w) (unread w) c e (rw e refl)
  by_body false hdr (from_buf w) c v =
      let e = chunk_lem w v in from_parts false hdr (from_buf w) (unread w) c e (rw e refl)
  by_body true hdr (from_host w) c v =
      let e = chunk_lem w v in from_parts true hdr (from_host w) (unread w) c e (rw e refl)
  by_body true hdr (from_node w) c v =
      let e = chunk_lem w v in from_parts true hdr (from_node w) (unread w) c e (rw e refl)
  by_body false hdr (from_host w) c v =
      from_back hdr (from_host w) w v (chunk_lem w v.in_range) refl
  by_body false hdr (from_node w) c v =
      from_back hdr (from_node w) w v (chunk_lem w v.in_range) refl

  -- Every valid packet is written as a frame of its header and its body.
  pub AsBuf-Frames : (p : Packet) → Codes P p.hdr → IsValid P p → AsBuf p
  AsBuf-Frames p c v = by_body p.hdr_dirty p.hdr p.body c v
