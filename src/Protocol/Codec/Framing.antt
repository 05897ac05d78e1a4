-- ===== src/Protocol/Codec/Framing.antt =====
-- How `decode` cuts the byte stream, and where it panics.
use kaze.Base.{
  ℕ, ◌+◌, ◌≤◌, ◌<◌, ◌≡◌, refl, arith, List, length, length-drop, take, drop, drop-drop, lt→ltb,
  le→ltb, ok, panic, ◌>>=◌, some, none,
}
use kaze.Extern.Bytes.{BytesCrate}
use kaze.Protocol.Hdr.{Prost}
use kaze.Protocol.Codec.{decode, decode_frame}

module _ (B : BytesCrate) (P : Prost) where
  -- Fewer than four bytes are left where they are.
  pub decode_short : (src : List ℕ) → length src < 4 → decode B P src ≡ (src, ok none)
  unfolding decode
  decode_short src h = rw (lt→ltb _ 4 h) refl

  module _ (src : List ℕ) (size : ℕ) (word : B.get_u32_le src ≡ some size)
      (four : 4 ≤ length src) where
    -- Where the first four bytes are there and say `size`: with less than `size` bytes at hand, the
    -- size field included, `decode` takes nothing and asks for more.
    pub decode_waits : length src < size → decode B P src ≡ (src, ok none)
    unfolding decode
    decode_waits h = rw (le→ltb _ 4 four, word, lt→ltb _ size h) refl

    -- Where the first four bytes are there and say `size`: a frame of which the last one to four
    -- bytes have not arrived is not waited for: `decode` panics when it cuts it off.
    pub decode_early : size ≤ length src → length src < size + 4 → (decode B P src).1 ≡ panic
    unfolding decode
    decode_early lo hi =
        rw
          (
            le→ltb _ 4 four,
            word,
            le→ltb _ size lo,
            B.advance_within src 4 four,
            B.split_to_beyond (drop 4 src) size (rw length-drop (omega arith)),
          )
          refl

    -- Where the first four bytes are there and say `size`: a whole frame is cut off, whatever
    -- becomes of it, and what follows it stays.
    pub decode_whole :
        size + 4 ≤ length src
        → decode B P src ≡ (
          drop (4 + size) src,
          decode_frame B P size (take size (drop 4 src)) >>= λ p. ok (some p),
        )
    unfolding decode
    decode_whole h =
        rw
          (
            le→ltb _ 4 four,
            word,
            le→ltb (length src) size (omega arith),
            B.advance_within src 4 four,
            B.split_to_within (drop 4 src) size (rw length-drop (omega arith)),
            drop-drop,
          )
          refl
