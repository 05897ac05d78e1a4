-- ===== src/Protocol/Codec/Put.antt =====
-- Writing a `PacketBuf` out, chunk after chunk.
use kaze.Base.{
  ℕ, suc, ◌≤◌, ◌<◌, ◌≡◌, refl, arith, List, [], ◌∷◌, ◌++◌, ltb, le→ltb, lt→ltb, length,
  length-append, length-drop, append-nil, append_assoc, ok, ap, ◌∙◌, ◌>>=◌, Bool-cases, inl, inr,
  tests, ltb→lt, ltb→le,
}
use kaze.Extern.Bytes.{BytesCrate}
use kaze.Protocol.Buf as Buf
use kaze.Protocol.Buf.{BufWrapper}
use kaze.Protocol.Buf.Laws.{InRange, unread, chunk_lem, advance-InRange, unread-advance}
use kaze.Protocol.Packet.{PacketBuf, from_hdr_body, from_whole, chunk, advance}
use kaze.Protocol.Packet.Drain.{
  IsReadable, contents, remaining-contents, advance-contents, advance_first,
}
use kaze.Protocol.Codec.{put_buf}

pub nil_of_length {ℓ} : {A : Type ℓ} (xs : List A) → length xs ≤ 0 → xs ≡ []
nil_of_length [] h = refl
nil_of_length (x ∷ xs) h = absurd (omega arith)

chunk-hdr_body :
    (w : BufWrapper) (bs : List ℕ)
    → InRange w
    → 0 < length (unread w)
    → chunk (from_hdr_body w bs) ≡ ok (unread w)
unfolding chunk
chunk-hdr_body w bs h p = rw (chunk_lem w h, lt→ltb 0 _ p) refl

chunk-body :
    (w : BufWrapper) (bs : List ℕ)
    → InRange w
    → length (unread w) ≤ 0
    → chunk (from_hdr_body w bs) ≡ ok bs
unfolding chunk
chunk-body w bs h p = rw (chunk_lem w h, le→ltb 0 _ p) refl

module _ (B : BytesCrate) (P : kaze.Protocol.Hdr.Prost) where
  put_buf_done :
      (f : ℕ) (dst : List ℕ) (b : PacketBuf)
      → IsReadable b
      → length (contents b) ≤ 0
      → put_buf B P (suc f) dst b ≡ ok dst
  unfolding put_buf
  put_buf_done f dst b h e = rw (remaining-contents b h, ◌>>=◌, le→ltb 0 _ e) refl

  -- One round writes the chunk `c` and goes on behind it.
  put_buf_step :
      (f : ℕ) (dst c : List ℕ) (b b' : PacketBuf)
      → IsReadable b
      → 0 < length (contents b)
      → chunk b ≡ ok c
      → advance B b (length c) ≡ ok b'
      → put_buf B P (suc f) dst b ≡ put_buf B P f (dst ++ c) b'
  unfolding put_buf
  put_buf_step f dst c b b' h p ec ea =
      rw (remaining-contents b h, ◌>>=◌, lt→ltb 0 _ p)
        (rw (ec, ◌>>=◌, ea, ◌>>=◌, B.put_lem dst c) refl)

  put_buf_last :
      (f : ℕ) (dst : List ℕ) (b : PacketBuf)
      → IsReadable b
      → chunk b ≡ ok (contents b)
      → put_buf B P (suc (suc f)) dst b ≡ ok (dst ++ contents b)
  put_buf_last f dst b h ec = elim (Bool-cases (ltb 0 (length (contents b)))) [
    | inl more ↦
        let (b', ea, h', e) = advance-contents B b (length (contents b)) h (omega arith) in
        put_buf_step (suc f) dst (contents b) b b' h (ltb→lt 0 _ more) ec ea
        ∙ put_buf_done f (dst ++ contents b) b' h' (rw (e, length-drop) (omega arith))
    | inr done ↦
        rw (nil_of_length (contents b) (ltb→le 0 _ done), append-nil)
          (put_buf_done (suc f) dst b h (ltb→le 0 _ done))
  ]

  put_buf_body :
      (f : ℕ) (dst : List ℕ) (w : BufWrapper) (bs : List ℕ)
      → InRange w
      → unread w ≡ []
      → put_buf B P (suc (suc f)) dst (from_hdr_body w bs) ≡ ok (dst ++ bs)
  put_buf_body f dst w bs h e =
      put_buf_last f dst (from_hdr_body w bs) h
        (rw (chunk-body w bs h (rw e (omega arith)), e) refl)
      ∙ rw e refl

  -- Three rounds write out everything that a readable buffer holds.
  pub put_buf_lem :
      (dst : List ℕ) (b : PacketBuf) → IsReadable b → put_buf B P 3 dst b ≡ ok (dst ++ contents b)
  put_buf_lem dst (from_whole w) h =
      put_buf_last 1 dst (from_whole w) h (unfold chunk in chunk_lem w h)
  put_buf_lem dst (from_hdr_body w bs) h = elim (Bool-cases (ltb 0 (length (unread w)))) [
    | inl more ↦
        put_buf_step 2 dst (unread w) (from_hdr_body w bs) _ h (rw length-append (omega tests))
          (chunk-hdr_body w bs h (ltb→lt 0 _ more)) (advance_first B w bs h)
        ∙ put_buf_body 0 (dst ++ unread w) (Buf.advance w (length (unread w))) bs
            (advance-InRange w (length (unread w)) (omega arith) h)
            (rw unread-advance (nil_of_length _ (rw length-drop (omega arith))))
        ∙ ap ok (append_assoc dst (unread w) bs)
    | inr done ↦
        let e = nil_of_length (unread w) (ltb→le 0 _ done) in
        put_buf_body 1 dst w bs h e ∙ rw e refl
  ]
