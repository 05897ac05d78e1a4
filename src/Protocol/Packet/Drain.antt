-- ===== src/Protocol/Packet/Drain.antt =====
-- `PacketBuf` as a `Buf`: it shows its two parts as one run of bytes.
use kaze.Base.{
  ℕ, ◌-◌, ◌≤◌, ◌≡◌, refl, arith, List, ◌++◌, length, length-append, drop, drop-append, drop-min,
  min, ok, ap, sym, ◌>>=◌,
}
use kaze.Extern.Bytes.{BytesCrate}
use kaze.Protocol.Buf as Buf
use kaze.Protocol.Buf.{BufWrapper}
use kaze.Protocol.Buf.Laws.{InRange, unread, remaining_lem, advance-InRange, unread-advance}
use kaze.Protocol.Packet.{PacketBuf, from_hdr_body, from_whole, remaining, advance}

abbrev pub IsReadable : PacketBuf → Type 0
IsReadable (from_hdr_body w bs) = InRange w
IsReadable (from_whole w) = InRange w

abbrev pub contents : PacketBuf → List ℕ
contents (from_hdr_body w bs) = unread w ++ bs
contents (from_whole w) = unread w

pub remaining-contents : (b : PacketBuf) → IsReadable b → remaining b ≡ ok (length (contents b))
unfolding remaining
remaining-contents (from_hdr_body w bs) h =
    rw (remaining_lem w h) (ap ok (sym (length-append (unread w) bs)))
remaining-contents (from_whole w) h = remaining_lem w h

module _ (B : BytesCrate) where
  -- Advancing by what is there drops that many bytes of the whole, and never panics.
  pub advance-contents :
      (b : PacketBuf) (n : ℕ)
      → IsReadable b
      → n ≤ length (contents b)
      → (b' : PacketBuf) × (advance B b n ≡ ok b')
        × IsReadable b'
        × (contents b' ≡ drop n (contents b))
  unfolding advance
  advance-contents (from_whole w) n h le =
      (from_whole (Buf.advance w n), refl, advance-InRange w n le h, unread-advance w n)
  advance-contents (from_hdr_body w bs) n h le = (
    from_hdr_body (Buf.advance w first) (drop (n - first) bs),
    rw (remaining_lem w h, B.advance_within bs (n - first) within) refl,
    advance-InRange w first (omega arith) h,
    rw (unread-advance w first, drop-min, drop-append)
        (ap (λ k. drop n (unread w) ++ drop k bs) (omega arith)),
  )
    where
      first : ℕ
      first = min n (length (unread w))

      within : n - first ≤ length bs
      within = omega (arith, length-append (unread w) bs)

  -- Advancing by the whole first part leaves the second.
  pub advance_first :
      (w : BufWrapper) (bs : List ℕ)
      → InRange w
      → advance B (from_hdr_body w bs) (length (unread w))
        ≡ ok (from_hdr_body (Buf.advance w (length (unread w))) bs)
  unfolding advance
  advance_first w bs h =
      let n : ℕ = length (unread w) in
      let same : min n n ≡ n = omega arith in
      let none' : n - min n n ≡ 0 = omega arith in
      rw (remaining_lem w h, ◌>>=◌, none', B.advance_within bs 0 (omega arith), same) refl
