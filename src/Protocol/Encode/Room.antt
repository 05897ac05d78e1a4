-- ===== src/Protocol/Encode/Room.antt =====
-- What `encode_packet` does for every room of its buffer.
use kaze.Base.{
  ℕ, ◌+◌, ◌-◌, ◌≤◌, ◌<◌, ◌≡◌, refl, arith, ap, ap₂, ◌∙◌, List, [], ◌++◌, append_assoc, ltb, lt→ltb,
  le→ltb, ltb→lt, ltb→le, Bool-cases, ◌⊎◌, inl, inr, length, ok, err, panic, ◌>>=◌,
}
use kaze.Extern.Bytes.{BytesCrate, to_le_bytes, length-to_le_bytes}
use kaze.Protocol.Hdr.{Hdr, Prost, Codes}
use kaze.Protocol.Buf as Buf
use kaze.Protocol.Buf.{BufWrapper}
use kaze.Protocol.Buf.Laws.{unread}
use kaze.Protocol.Prefix.{decode_packet}
use kaze.Protocol.Packet.Wire.{encoded, encoded-Frames}
use kaze.Protocol.Codec.Host.{decode_packet-Frames}
use kaze.Protocol.Codec.RoundTrip.{behind, behind-Backs}
use kaze.Protocol.Encode.{Dst, no_rooms_for_prefix, buffer_full, put, encode_hdr, encode_packet}

less_or : (a b : ℕ) → (a < b) ⊎ (b ≤ a)
less_or a b = elim (Bool-cases (ltb a b)) [
  | inl t ↦ inl (ltb→lt a b t)
  | inr f ↦ inr (ltb→le a b f)
]

put_fits :
    (dst : Dst) (bs : List ℕ)
    → length bs ≤ dst.room
    → put dst bs ≡ ok (record { written = dst.written ++ bs; room = dst.room - length bs })
unfolding put
put_fits dst bs h = rw (le→ltb dst.room (length bs) h) refl

put_beyond : (dst : Dst) (bs : List ℕ) → dst.room < length bs → put dst bs ≡ panic
unfolding put
put_beyond dst bs h = rw (lt→ltb dst.room (length bs) h) refl

module _ (P : Prost) (src : Dst) (hdr : Hdr) (bs : List ℕ) (c : Codes P hdr) where
  abbrev size : ℕ
  size = P.encoded_len hdr

  -- After the prefix and after the header.
  abbrev prefixed : Dst
  prefixed = record { written = src.written ++ to_le_bytes size; room = src.room - 4 }

  abbrev coded : Dst
  coded = record { written = prefixed.written ++ P.encode hdr; room = prefixed.room - size }

  to_prefix :
      size ≤ src.room
      → 4 ≤ src.room
      → encode_packet P src hdr bs ≡ (encode_hdr P prefixed hdr >>= λ d. put d bs)
  unfolding encode_packet
  to_prefix h four =
      rw
        (
          le→ltb src.room size h,
          put_fits src (to_le_bytes size) (rw (length-to_le_bytes size) four),
          length-to_le_bytes size,
        )
        refl

  to_coded : size + 4 ≤ src.room → encode_packet P src hdr bs ≡ put coded bs
  unfolding encode_hdr
  to_coded h =
      to_prefix (omega arith) (omega arith)
      ∙ rw
          (
            le→ltb prefixed.room size (omega arith),
            put_fits prefixed (P.encode hdr) (rw (← c.encoded_len_lem) (omega arith)),
            ← c.encoded_len_lem,
          )
          refl

  -- The room that a packet needs is four bytes, its header and its body. With less than the header
  -- `encode_packet` returns an error; else with less than the four bytes it panics; else with less
  -- than these and the header it returns the error of the header's encoder; else with less than
  -- all it panics; and otherwise it writes the packet's frame.
  pub encode_packet_lem :
      ((src.room < size) × (encode_packet P src hdr bs ≡ err no_rooms_for_prefix))
      ⊎ ((size ≤ src.room) × (src.room < 4) × (encode_packet P src hdr bs ≡ panic))
      ⊎ ((size ≤ src.room)
          × (4 ≤ src.room)
          × (src.room < size + 4)
          × (encode_packet P src hdr bs ≡ err buffer_full))
      ⊎ ((size + 4 ≤ src.room)
          × (src.room < size + 4 + length bs)
          × (encode_packet P src hdr bs ≡ panic))
      ⊎ ((size + 4 + length bs ≤ src.room)
          × (encode_packet P src hdr bs
              ≡ ok (record {
                written = src.written ++ encoded P hdr bs;
                room = src.room - (size + 4 + length bs);
              })))
  unfolding encode_packet encode_hdr
  encode_packet_lem = elim (less_or src.room size) [
    | inl lt ↦ inl (lt, rw (lt→ltb src.room size lt) refl)
    | inr h ↦ elim (less_or src.room 4) [
      | inl lt ↦ inr (
          inl (
            h,
            lt,
            rw
                (
                  le→ltb src.room size h,
                  put_beyond src (to_le_bytes size) (rw (length-to_le_bytes size) lt),
                )
                refl,
          ))
      | inr four ↦ elim (less_or src.room (size + 4)) [
        | inl lt ↦ inr (
            inr (
              inl (
                h,
                four,
                lt,
                to_prefix h four ∙ rw (lt→ltb prefixed.room size (omega arith)) refl,
              )))
        | inr header ↦ elim (less_or src.room (size + 4 + length bs)) [
          | inl lt ↦
              inr
                (inr (inr (inl (header, lt, to_coded header ∙ put_beyond coded bs (omega arith)))))
          | inr all ↦ inr (
              inr (
                inr (
                  inr (
                    all,
                    to_coded header
                        ∙ put_fits coded bs (omega arith)
                        ∙ ap ok
                            (ap₂ (λ w r. record { written = w; room = r }) joined (omega arith)),
                  ))))
        ]
      ]
    ]
  ]
    where
      joined : coded.written ++ bs ≡ src.written ++ encoded P hdr bs
      joined =
          append_assoc (src.written ++ to_le_bytes size) (P.encode hdr) bs
          ∙ append_assoc src.written (to_le_bytes size) (P.encode hdr ++ bs)
          ∙ ap (λ n. src.written ++ (to_le_bytes n ++ (P.encode hdr ++ bs))) c.encoded_len_lem

-- What `encode_packet` writes into a fresh buffer with room for it, `decode_packet` reads back: the
-- header, with the position at the body.
pub decode-encode_packet :
    (B : BytesCrate) (P : Prost) (hdr : Hdr) (bs : List ℕ) (room : ℕ)
    → Codes P hdr
    → P.encoded_len hdr + 4 + length bs ≤ room
    → (dst : Dst) × (src : BufWrapper) × (encode_packet P
          (record { written = []; room = room })
          hdr
          bs
        ≡ ok dst)
      × (decode_packet B P (Buf.new dst.written) ≡ ok (hdr, src))
      × (unread src ≡ bs)
decode-encode_packet B P hdr bs room c fits =
    elim (encode_packet_lem P (record { written = []; room = room }) hdr bs c) [
      | inl (lt, _) ↦ absurd (omega arith)
      | inr (inl (_, lt, _)) ↦ absurd (omega arith)
      | inr (inr (inl (_, _, lt, _))) ↦ absurd (omega arith)
      | inr (inr (inr (inl (_, lt, _)))) ↦ absurd (omega arith)
      | inr (inr (inr (inr (_, e)))) ↦ (
        record { written = encoded P hdr bs; room = room - (P.encoded_len hdr + 4 + length bs) },
        behind (encoded P hdr bs) (encoded-Frames P hdr bs c).code,
        e,
        decode_packet-Frames B P hdr bs (encoded P hdr bs) (encoded-Frames P hdr bs c),
        (behind-Backs B P hdr bs (encoded P hdr bs) (encoded-Frames P hdr bs c)).1,
      )
    ]
