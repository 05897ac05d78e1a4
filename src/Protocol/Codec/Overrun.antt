-- ===== src/Protocol/Codec/Overrun.antt =====
-- Frames whose size fields contradict each other.
use kaze.Base.{
  ℕ, ◌+◌, ◌≤◌, ◌<◌, ◌≡◌, refl, arith, List, ◌++◌, length, length-append, length-take, take, drop,
  le→ltb, leb, false, Outcome, ok, panic, ap, ◌∙◌, ◌>>=◌, some,
}
use kaze.Extern.Bytes.{BytesCrate, to_le_bytes, length-to_le_bytes, u32_mod}
use kaze.Protocol.Hdr.{Hdr, Prost}
use kaze.Protocol.Buf as Buf
use kaze.Protocol.Buf.Laws.{chunk_lem}
use kaze.Protocol.Buf.{BufWrapper}
use kaze.Protocol.Prefix.{CodecError, get_u32_le}
use kaze.Protocol.Packet.{Packet, from_node, body}
use kaze.Protocol.Codec.{decode, decode_frame}
use kaze.Protocol.Codec.RoundTrip.{get_word, get_u32_le-word, chunk-word}
use kaze.Protocol.Codec.Framing.{decode_whole}

leb-false : (a b : ℕ) → b < a → leb a b ≡ false
leb-false a b h = ground arith

chunk_beyond : (w : BufWrapper) → length w.inner < w.pos → Buf.chunk {E = CodecError} w ≡ panic
unfolding Buf.chunk
chunk_beyond w h = rw (leb-false _ _ h) refl

module _ (B : BytesCrate) (P : Prost) where
  frame_tiny : (size : ℕ) (bs : List ℕ) → length bs < 4 → decode_frame B P size bs ≡ panic
  unfolding decode_frame get_u32_le
  frame_tiny size bs h =
      rw (chunk_lem (Buf.new bs) (omega arith), ◌>>=◌, B.get_u32_le_short bs h) refl

  -- A frame that says it has fewer than four bytes makes `decode` panic as soon as it is there.
  pub decode_tiny :
      (size : ℕ) (rest : List ℕ)
      → size < 4
      → size ≤ length rest
      → (decode B P (to_le_bytes size ++ rest)).1 ≡ panic
  decode_tiny size rest lt le =
      ap (λ r. r.1)
        (decode_whole B P (to_le_bytes size ++ rest) size (get_word B size rest (omega arith))
          (rw length-append (omega (arith, four))) (rw length-append (omega (arith, four))))
      ∙ ap (λ (x : Outcome CodecError Packet). x >>= λ p. ok (some p))
          (frame_tiny size _ (omega (arith, length-take size (drop 4 (to_le_bytes size ++ rest)))))
    where
      four : length (to_le_bytes size) ≡ 4
      four = length-to_le_bytes size

  -- A header size that passes the check `hdr_size > size` without leaving room for its own four
  -- bytes: the packet is accepted, and reading its body panics.
  pub decode_frame_overrun :
      (hdr : Hdr) (n : ℕ) (rest : List ℕ)
      → n < u32_mod
      → length rest < n
      → n ≤ length rest + 4
      → P.decode (take n rest) ≡ some hdr
      → (p : Packet) × (decode_frame B P (length rest + 4) (to_le_bytes n ++ rest) ≡ ok p)
        × (p.hdr ≡ hdr)
        × (body p ≡ panic)
  unfolding decode_frame body
  decode_frame_overrun hdr n rest lt over pass d = (
    record {
      hdr_dirty = false;
      hdr = hdr;
      body = from_node (Buf.advance (Buf.new (to_le_bytes n ++ rest)) (n + 4));
    },
    rw
        (
          get_u32_le-word B n rest lt,
          ◌>>=◌,
          le→ltb (length rest + 4) n pass,
          ◌>>=◌,
          chunk-word B n rest,
          ◌>>=◌,
          B.take_buf_lem,
          d,
        )
        refl,
    refl,
    chunk_beyond _ (rw length-append (omega (arith, length-to_le_bytes n))),
  )
