-- ===== src/Protocol/Codec/IoVec.antt =====
-- The two slices that go to a socket.
use kaze.Base.{
  ℕ, ◌+◌, ◌≡◌, refl, arith, List, [], ◌++◌, length, length-append, append_assoc, Bool, true, false,
  ok, ap, sym, ◌∙◌,
}
use kaze.Extern.Bytes.{BytesCrate, to_le_bytes, length-to_le_bytes}
use kaze.Protocol.Hdr.{Hdr, Prost, Codes}
use kaze.Protocol.Buf as Buf
use kaze.Protocol.Buf.{BufWrapper}
use kaze.Protocol.Buf.Laws.{unread, chunk_lem}
use kaze.Protocol.Prefix.{CodecError}
use kaze.Protocol.Packet.{
  Packet, PacketBody, empty, from_buf, from_host, from_node, from_hdr_body, from_whole, PacketBuf,
  IoVec, body, as_buf, to_iovec,
}
use kaze.Protocol.Packet.Drain.{contents}
use kaze.Protocol.Packet.Wire.{BodyIsValid, IsValid, AsBuf, AsBuf-Frames, encoded}
use kaze.Protocol.Codec.{encode}
use kaze.Protocol.Codec.RoundTrip.{encode_lem}

module _ (B : BytesCrate) (P : Prost) where
  -- The slices carry the frame of the size and the bytes that `wire` holds.
  pub record Carries (p : Packet) (wire : List ℕ) : Type 0 where
    pub head : List ℕ
    pub tail : List ℕ
    pub to_iovec_lem : to_iovec B P p ≡ ok (head, tail)
    pub joined : head ++ tail ≡ to_le_bytes (length wire) ++ wire

  abbrev slice : Hdr → List ℕ → List ℕ
  slice hdr bs =
      B.put (B.put_u32_le (B.put_u32_le [] (4 + P.encoded_len hdr + length bs)) (P.encoded_len hdr))
        (P.encode hdr)

  slice_lem :
      (hdr : Hdr) (bs : List ℕ)
      → Codes P hdr
      → slice hdr bs ++ bs ≡ to_le_bytes (length (encoded P hdr bs)) ++ encoded P hdr bs
  slice_lem hdr bs c =
      rw (B.put_lem, B.put_u32_le_lem, B.put_u32_le_lem, c.encoded_len_lem)
        (append_assoc (to_le_bytes n ++ to_le_bytes (length h)) h bs
          ∙ append_assoc (to_le_bytes n) (to_le_bytes (length h)) (h ++ bs)
          ∙ ap (λ k. to_le_bytes k ++ encoded P hdr bs) size)
    where
      h : List ℕ
      h = P.encode hdr

      n : ℕ
      n = 4 + length h + length bs

      size : n ≡ length (encoded P hdr bs)
      size = rw (length-append, length-append) (omega (arith, length-to_le_bytes (length h)))

  -- `as_buf` and `to_iovec` of one packet, side by side.
  pub record SameBytes (p : Packet) : Type 0 where
    pub buf : PacketBuf
    pub as_buf_lem : as_buf B P p ≡ ok buf
    pub carries : Carries p (contents buf)

  from_parts :
      (p : Packet) (bs : List ℕ)
      → Codes P p.hdr
      → as_buf B P p
        ≡ ok (
            from_hdr_body
              (Buf.new (B.put (B.put_u32_le [] (P.encoded_len p.hdr)) (P.encode p.hdr)))
              bs)
      → to_iovec B P p ≡ ok (slice p.hdr bs, bs)
      → SameBytes p
  from_parts p bs c ea ei = record {
    buf = _;
    as_buf_lem = ea;
    carries =
        rw (B.put_lem, B.put_u32_le_lem, c.encoded_len_lem, append_assoc)
          (record {
            head = slice p.hdr bs;
            tail = bs;
            to_iovec_lem = ei;
            joined = slice_lem p.hdr bs c;
          });
  }

  from_back :
      (p : Packet) (w : BufWrapper)
      → as_buf B P p ≡ ok (from_whole (Buf.new w.inner))
      → to_iovec B P p ≡ ok (to_le_bytes (length w.inner), w.inner)
      → SameBytes p
  from_back p w ea ei = record {
    buf = from_whole (Buf.new w.inner);
    as_buf_lem = ea;
    carries = record { head = _; tail = _; to_iovec_lem = ei; joined = refl };
  }

  by_body :
      (d : Bool) (hdr : Hdr) (b : PacketBody)
      → Codes P hdr
      → BodyIsValid P d hdr b
      → SameBytes (record { hdr_dirty = d; hdr = hdr; body = b })
  unfolding body as_buf to_iovec
  by_body true hdr empty c v = from_parts _ [] c refl refl
  by_body false hdr empty c v = from_parts _ [] c refl refl
  by_body true hdr (from_buf w) c v =
      let e = chunk_lem {E = CodecError} w v in from_parts _ (unread w) c (rw e refl) (rw e refl)
  by_body false hdr (from_buf w) c v =
      let e = chunk_lem {E = CodecError} w v in from_parts _ (unread w) c (rw e refl) (rw e refl)
  by_body true hdr (from_host w) c v =
      let e = chunk_lem {E = CodecError} w v in from_parts _ (unread w) c (rw e refl) (rw e refl)
  by_body true hdr (from_node w) c v =
      let e = chunk_lem {E = CodecError} w v in from_parts _ (unread w) c (rw e refl) (rw e refl)
  by_body false hdr (from_host w) c v = from_back _ w refl refl
  by_body false hdr (from_node w) c v = from_back _ w refl refl

  -- A packet whose body can be read and whose header `prost` codes goes to a socket (`to_iovec`)
  -- as the bytes that `encode` appends for it.
  pub to_iovec-encode :
      (p : Packet) (dst : List ℕ)
      → Codes P p.hdr
      → IsValid P p
      → (v : IoVec) × (to_iovec B P p ≡ ok v) × (encode B P p dst ≡ ok (dst ++ (v.0 ++ v.1)))
  to_iovec-encode p dst c v = (
    (s.carries.head, s.carries.tail),
    s.carries.to_iovec_lem,
    encode_lem B P p dst a ∙ rw (ap contents same) (ap (λ t. ok (dst ++ t)) (sym s.carries.joined)),
  )
    where
      a : AsBuf B P p
      a = AsBuf-Frames B P p c v

      s : SameBytes p
      s = by_body p.hdr_dirty p.hdr p.body c v

      same : a.buf ≡ s.buf
      same = cc (a.as_buf_lem, s.as_buf_lem)
