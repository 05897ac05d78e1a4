-- ===== src/Protocol/Codec/RoundTrip.antt =====
-- What `encode` writes, `decode` reads.
use kaze.Base.{
  ℕ, ◌+◌, ◌^◌, ◌≤◌, ◌<◌, ◌≡◌, refl, arith, List, ◌++◌, length, length-append, take, drop,
  take_append, drop_append, append_assoc, le→ltb, Outcome, ok, ap, ap₂, sym, ◌∙◌, ◌>>=◌, some,
}
use kaze.Extern.Bytes.{BytesCrate, to_le_bytes, length-to_le_bytes, get-to_le_bytes}
use kaze.Protocol.Hdr.{Hdr, Prost, Codes}
use kaze.Protocol.Buf as Buf
use kaze.Protocol.Buf.{BufWrapper}
use kaze.Protocol.Buf.Laws.{unread, chunk_lem, remaining_lem}
use kaze.Protocol.Prefix.{CodecError, get_u32_le}
use kaze.Protocol.Packet.{Packet, body, as_buf, from_node_buf, remaining}
use kaze.Protocol.Packet.Drain.{contents, remaining-contents}
use kaze.Protocol.Packet.Wire.{Frames, Backs, IsValid, AsBuf, AsBuf-Frames}
use kaze.Protocol.Codec.{decode, decode_frame, encode}
use kaze.Protocol.Codec.Put.{put_buf_lem}
use kaze.Protocol.Codec.Framing.{decode_whole}

-- The wrapper that `decode` makes of a frame.
abbrev pub behind : List ℕ → List ℕ → BufWrapper
behind wire code = record { inner = wire; pos = length code + 4 }

module _ (B : BytesCrate) where
  pub get_word :
      (n : ℕ) (rest : List ℕ) → n < 2 ^ 32 → B.get_u32_le (to_le_bytes n ++ rest) ≡ some n
  get_word n rest h = get-to_le_bytes B n rest ∙ ap some (omega arith)

  -- Reading the header's size off the front of a frame.
  pub get_u32_le-word :
      (n : ℕ) (rest : List ℕ)
      → n < 2 ^ 32
      → get_u32_le B (Buf.new (to_le_bytes n ++ rest))
        ≡ ok (n, record { inner = to_le_bytes n ++ rest; pos = 4 })
  unfolding get_u32_le
  get_u32_le-word n rest h =
      rw (chunk_lem (Buf.new (to_le_bytes n ++ rest)) (omega arith), ◌>>=◌, get_word n rest h) refl

  pub chunk-word :
      {E : Type 0} (n : ℕ) (rest : List ℕ)
      → Buf.chunk {E = E} (record { inner = to_le_bytes n ++ rest; pos = 4 }) ≡ ok rest
  chunk-word n rest =
      chunk_lem (record { inner = to_le_bytes n ++ rest; pos = 4 })
        (rw length-append (omega (arith, length-to_le_bytes n)))
      ∙ ap ok (drop_append 4 (to_le_bytes n) rest (sym (length-to_le_bytes n)))

  pub remaining-word :
      {E : Type 0} (n : ℕ) (rest : List ℕ)
      → Buf.remaining {E = E} (record { inner = to_le_bytes n ++ rest; pos = 4 }) ≡ ok (length rest)
  remaining-word n rest =
      remaining_lem (record { inner = to_le_bytes n ++ rest; pos = 4 })
        (rw length-append (omega (arith, length-to_le_bytes n)))
      ∙ ap (λ t. ok (length t)) (drop_append 4 (to_le_bytes n) rest (sym (length-to_le_bytes n)))

  module _ (P : Prost) where
    length-frame :
        (code bs wire : List ℕ)
        → wire ≡ to_le_bytes (length code) ++ (code ++ bs)
        → length wire ≡ length code + 4 + length bs
    length-frame code bs wire e =
        rw (e, length-append, length-append) (omega (arith, length-to_le_bytes (length code)))

    unread-frame :
        (code bs wire : List ℕ)
        → wire ≡ to_le_bytes (length code) ++ (code ++ bs)
        → unread (behind wire code) ≡ bs
    unread-frame code bs wire e =
        ap (drop (length code + 4)) (e ∙ sym (append_assoc _ code bs))
        ∙ drop_append (length code + 4) (to_le_bytes (length code) ++ code) bs
            (rw length-append (omega (arith, length-to_le_bytes (length code))))

    decode_frame_code :
        (hdr : Hdr) (code bs wire : List ℕ) (size : ℕ)
        → wire ≡ to_le_bytes (length code) ++ (code ++ bs)
        → P.decode code ≡ some hdr
        → length code < 2 ^ 32
        → length code ≤ size
        → decode_frame B P size wire ≡ ok (from_node_buf hdr (behind wire code))
    unfolding decode_frame
    decode_frame_code hdr code bs wire size e d n le = rw e (
        rw
          (
            get_u32_le-word (length code) (code ++ bs) n,
            ◌>>=◌,
            le→ltb size (length code) le,
            ◌>>=◌,
            chunk-word (length code) (code ++ bs),
            ◌>>=◌,
            B.take_buf_lem,
            take_append (length code) code bs refl,
            d,
          )
          (ap
            (λ k. ok (
              from_node_buf hdr
                (record { inner = to_le_bytes (length code) ++ (code ++ bs); pos = k })))
            (omega arith)))

    pub behind-Backs :
        (hdr : Hdr) (bs wire : List ℕ) (f : Frames P hdr bs wire)
        → Backs P hdr (behind wire f.code) × (unread (behind wire f.code) ≡ bs)
    behind-Backs hdr bs wire f = (
      record {
        in_range = omega (arith, length-frame f.code bs wire f.shape);
        frames = rw (unread-frame f.code bs wire f.shape) f;
      },
      unread-frame f.code bs wire f.shape,
    )

    pub decode-Frames :
        (hdr : Hdr) (bs wire rest : List ℕ) (f : Frames P hdr bs wire)
        → length wire < 2 ^ 32
        → decode B P (to_le_bytes (length wire) ++ (wire ++ rest))
          ≡ (rest, ok (some (from_node_buf hdr (behind wire f.code))))
    decode-Frames hdr bs wire rest f fits =
        decode_whole B P (to_le_bytes (length wire) ++ (wire ++ rest)) (length wire)
          (get_word (length wire) (wire ++ rest) fits) (rw length-append (omega (arith, four)))
          (rw (length-append, length-append) (omega (arith, four)))
        ∙ ap₂ (λ r (x : Outcome CodecError Packet). (r, x >>= λ p. ok (some p)))
            (ap (drop (4 + length wire)) (sym (append_assoc (to_le_bytes (length wire)) wire rest))
              ∙ drop_append (4 + length wire) (to_le_bytes (length wire) ++ wire) rest
                  (rw length-append (omega (arith, four))))
            (ap (decode_frame B P (length wire)) (
                ap (take (length wire))
                  (drop_append 4 (to_le_bytes (length wire)) (wire ++ rest) (sym four))
                ∙ take_append (length wire) wire rest refl)
              ∙ decode_frame_code hdr f.code bs wire (length wire) f.shape f.decodes f.narrow
                  (omega (arith, length-frame f.code bs wire f.shape)))
      where
        four : length (to_le_bytes (length wire)) ≡ 4
        four = length-to_le_bytes (length wire)

    -- What `encode` appends for a packet: the frame's size, and the frame.
    pub encode_lem :
        (p : Packet) (dst : List ℕ) (a : AsBuf B P p)
        → encode B P p dst ≡ ok (dst ++ (to_le_bytes (length (contents a.buf)) ++ contents a.buf))
    unfolding encode
    encode_lem p dst a =
        rw (a.as_buf_lem, ◌>>=◌, remaining-contents a.buf a.readable, ◌>>=◌, B.put_u32_le_lem)
          (put_buf_lem B P _ a.buf a.readable ∙ ap ok (append_assoc dst _ (contents a.buf)))

    -- A packet whose body can be read and whose header `prost` codes, written by `encode` behind
    -- any bytes and followed by any others, is read back by `decode`: the same header and body,
    -- in a valid packet that is as long when it is written again, with what followed left in the
    -- buffer. Its frame must fit the 32-bit size field.
    pub decode-encode :
        (p : Packet) (n : ℕ) (dst rest : List ℕ)
        → Codes P p.hdr
        → IsValid P p
        → (as_buf B P p >>= remaining) ≡ ok n
        → n < 2 ^ 32
        → (wire : List ℕ) × (q : Packet) × (encode B P p dst ≡ ok (dst ++ wire))
          × (decode B P (wire ++ rest) ≡ (rest, ok (some q)))
          × (q.hdr ≡ p.hdr)
          × (body q ≡ body p)
          × IsValid P q
          × ((as_buf B P q >>= remaining) ≡ ok n)
    unfolding body as_buf remaining
    decode-encode p n dst rest c v en fits = (
      to_le_bytes (length w) ++ w,
      from_node_buf p.hdr (behind w a.frames.code),
      encode_lem p dst a,
      ap (decode B P) (append_assoc (to_le_bytes (length w)) w rest)
          ∙ decode-Frames p.hdr a.bs w rest a.frames (omega (arith, same)),
      refl,
      chunk_lem (behind w a.frames.code) back.0.in_range ∙ ap ok back.1 ∙ sym a.body_lem,
      back.0,
      remaining_lem (Buf.new w) (omega arith) ∙ ap ok (sym same),
    )
      where
        a : AsBuf B P p
        a = AsBuf-Frames B P p c v

        w : List ℕ
        w = contents a.buf

        same : n ≡ length w
        same = cc (en, ap (λ b. b >>= remaining) a.as_buf_lem, remaining-contents a.buf a.readable)

        back : Backs P p.hdr (behind w a.frames.code) × (unread (behind w a.frames.code) ≡ a.bs)
        back = behind-Backs p.hdr a.bs w a.frames
