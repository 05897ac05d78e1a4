-- ===== src/Protocol/Codec/Host.antt =====
-- Packets that the host wrote: any bytes are read without a panic.
use kaze.Base.{
  ℕ, ◌+◌, ◌≤◌, ◌<◌, ◌≡◌, refl, arith, List, [], ◌++◌, All, length, length-append, length-take, take,
  drop, take-append-drop, ltb, lt→ltb, le→ltb, ltb→le, ltb→lt, Bool-cases, Option-cases, false,
  Outcome, ok, err, ap, ap₂, sym, subst, take_append, ◌∙◌, ◌>>=◌, ◌>>◌, bail_if, ◌⊎◌, inl, inr,
  some,
}
use kaze.Extern.Bytes.{
  BytesCrate, IsByte, to_le_bytes, length-to_le_bytes, get_u32_le_cases, u32_mod,
}
use kaze.Protocol.Hdr.{Hdr, Prost, Codes}
use kaze.Protocol.Buf as Buf
use kaze.Protocol.Buf.{BufWrapper}
use kaze.Protocol.Buf.Laws.{unread, chunk_lem, remaining_lem}
use kaze.Protocol.Prefix.{CodecError, decode_packet, or_err}
use kaze.Protocol.Packet as Packets
use kaze.Protocol.Packet.{Packet, PacketBuf, from_host_buf, as_buf, body}
use kaze.Protocol.Packet.Wire.{Frames, Backs, IsValid, AsBuf, AsBuf-Frames}
use kaze.Protocol.Packet.Drain.{contents}
use kaze.Protocol.Codec.{put_buf}
use kaze.Protocol.Codec.Put.{put_buf_lem}
use kaze.Protocol.Codec.RoundTrip.{
  get_u32_le-word, chunk-word, remaining-word, behind, behind-Backs,
}

module _ (B : BytesCrate) (P : Prost) where
  -- `decode_packet` on the bytes of a whole number and of `rest`.
  decode_word :
      (n : ℕ) (rest : List ℕ)
      → n < u32_mod
      → decode_packet B P (Buf.new (to_le_bytes n ++ rest)) ≡ (
          bail_if (ltb (length rest) n) CodecError.invalid_header_size
          >> (or_err CodecError.failed_to_decode (P.decode (take n rest)) >>= λ hdr.
              ok (hdr, record { inner = to_le_bytes n ++ rest; pos = 4 + n })))
  unfolding decode_packet
  decode_word n rest lt =
      rw
        (
          remaining_lem (Buf.new (to_le_bytes n ++ rest)) (omega arith),
          ◌>>=◌,
          le→ltb (length (to_le_bytes n ++ rest)) 4
              (rw length-append (omega (arith, length-to_le_bytes n))),
          ◌>>=◌,
          get_u32_le-word B n rest lt,
          ◌>>=◌,
          remaining-word B n rest,
          ◌>>=◌,
          chunk-word B n rest,
          B.take_buf_lem,
        )
        refl

  -- Bytes too short for a prefix.
  decode_packet_short :
      (bs : List ℕ)
      → length bs < 4
      → decode_packet B P (Buf.new bs) ≡ err CodecError.no_rooms_for_prefix
  unfolding decode_packet
  decode_packet_short bs h =
      rw (remaining_lem (Buf.new bs) (omega arith), ◌>>=◌, lt→ltb (length bs) 4 h) refl

  pub decode_packet-Frames :
      (hdr : Hdr) (bs wire : List ℕ) (f : Frames P hdr bs wire)
      → decode_packet B P (Buf.new wire) ≡ ok (hdr, behind wire f.code)
  decode_packet-Frames hdr bs wire f =
      ap (λ t. decode_packet B P (Buf.new t)) f.shape
      ∙ decode_word (length f.code) (f.code ++ bs) f.narrow
      ∙ rw
          (
            le→ltb (length (f.code ++ bs)) (length f.code) (rw length-append (omega arith)),
            take_append (length f.code) f.code bs refl,
            f.decodes,
          )
          (ap₂ (λ t k. ok (hdr, record { inner = t; pos = k })) (sym f.shape) (omega arith))

  -- What may become of the bytes in a host buffer.
  abbrev pub Reads : BufWrapper → Type 0
  Reads src =
      ((e : CodecError) × (from_host_buf B P src ≡ err e))
      ⊎ ((q : Packet) × (from_host_buf B P src ≡ ok q) × IsValid P q)

  Reads-of_err :
      (src : BufWrapper) (e : CodecError)
      → decode_packet B P (Buf.new src.inner) ≡ err e
      → Reads src
  unfolding from_host_buf
  Reads-of_err src e h = inl (e, rw h refl)

  Reads-of_hdr :
      (src : BufWrapper) (hdr : Hdr) (n : ℕ) (rest : List ℕ)
      → src.inner ≡ to_le_bytes n ++ rest
      → n < u32_mod
      → n ≤ length rest
      → P.decode (take n rest) ≡ some hdr
      → decode_packet B P (Buf.new src.inner) ≡ ok (hdr, record { inner = src.inner; pos = 4 + n })
      → Reads src
  unfolding from_host_buf
  Reads-of_hdr src hdr n rest e lt le d h = inr (
    record {
      hdr_dirty = false;
      hdr = hdr;
      body = Packets.from_host (record { inner = src.inner; pos = 4 + n });
    },
    rw h refl,
    subst (λ k. Backs P hdr (record { inner = src.inner; pos = k })) (omega (arith, cut))
        (behind-Backs B P hdr (drop n rest) src.inner (record {
          code = take n rest;
          shape = rw (take-append-drop, cut) e;
          decodes = d;
          narrow = omega (arith, cut);
        })).0,
  )
    where
      cut : length (take n rest) ≡ n
      cut = omega (arith, length-take n rest)

  -- The frame that a packet is written as, whose body can be read and whose header `prost` codes, is
  -- read back from a host buffer: the same header and body, in a valid packet, wherever the buffer's
  -- position stood. (`put_buf` is how the bytes come to the host.)
  pub from_host-as_buf :
      (p : Packet) (pos : ℕ)
      → Codes P p.hdr
      → IsValid P p
      → (buf : PacketBuf) × (wire : List ℕ) × (q : Packet) × (as_buf B P p ≡ ok buf)
        × (put_buf B P 3 [] buf ≡ ok wire)
        × (from_host_buf B P (record { inner = wire; pos = pos }) ≡ ok q)
        × (q.hdr ≡ p.hdr)
        × (body q ≡ body p)
        × IsValid P q
  unfolding from_host_buf body
  from_host-as_buf p pos c v = (
    a.buf,
    w,
    q,
    a.as_buf_lem,
    put_buf_lem B P [] a.buf a.readable,
    ap (λ r. r >>= done) (decode_packet-Frames p.hdr a.bs w a.frames),
    refl,
    chunk_lem (behind w a.frames.code) back.0.in_range ∙ ap ok back.1 ∙ sym a.body_lem,
    back.0,
  )
    where
      a : AsBuf B P p
      a = AsBuf-Frames B P p c v

      w : List ℕ
      w = contents a.buf

      q : Packet
      q = record {
        hdr_dirty = false;
        hdr = p.hdr;
        body = Packets.from_host (behind w a.frames.code);
      }

      done : Hdr × BufWrapper → Outcome CodecError Packet
      done (hdr, src') = ok (record { hdr_dirty = false; hdr = hdr; body = Packets.from_host src' })

      back : Backs P p.hdr (behind w a.frames.code) × (unread (behind w a.frames.code) ≡ a.bs)
      back = behind-Backs B P p.hdr a.bs w a.frames

  -- Any bytes at all in the host's buffer, wherever its position stands, are refused with an error
  -- or read as a valid packet: reading never panics.
  pub from_host_total : (src : BufWrapper) → All IsByte src.inner → Reads src
  from_host_total src bytes = elim (Bool-cases (ltb (length src.inner) 4)) [
    | inl short ↦
        Reads-of_err src CodecError.no_rooms_for_prefix
          (decode_packet_short src.inner (ltb→lt _ 4 short))
    | inr long ↦
        let (n, rest, _, e, lt) = get_u32_le_cases B src.inner bytes (ltb→le _ 4 long) in
        from_word n rest e lt
  ]
    where
      from_word :
          (n : ℕ) (rest : List ℕ) → src.inner ≡ to_le_bytes n ++ rest → n < u32_mod → Reads src
      from_word n rest e lt = elim (Bool-cases (ltb (length rest) n)) [
        | inl big ↦
            Reads-of_err src CodecError.invalid_header_size
              (ap (λ t. decode_packet B P (Buf.new t)) e ∙ decode_word n rest lt ∙ rw big refl)
        | inr fits ↦ elim (Option-cases (P.decode (take n rest))) [
          | inl bad ↦ Reads-of_err src CodecError.failed_to_decode (
              ap (λ t. decode_packet B P (Buf.new t)) e
              ∙ decode_word n rest lt
              ∙ rw (fits, bad) refl)
          | inr (hdr, good) ↦ Reads-of_hdr src hdr n rest e lt (ltb→le _ n fits) good (
              ap (λ t. decode_packet B P (Buf.new t)) e
              ∙ decode_word n rest lt
              ∙ rw (fits, good) (ap (λ t. ok (hdr, record { inner = t; pos = 4 + n })) (sym e)))
        ]
      ]
