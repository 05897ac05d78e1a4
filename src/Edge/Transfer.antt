-- ===== src/Edge/Transfer.antt =====
-- A packet that one side's edge sends is the packet that the other side reads.
use kaze.Base.{
  ℕ, ◌+◌, ◌-◌, ◌^◌, ◌≤◌, ◌≡◌, refl, sym, ap, ◌∙◌, arith, List, [], ◌∷◌, length, inl, inr, true,
  false, le→ltb, none, some, Outcome, ok, ◌>>=◌,
}
use kaze.Extern.Bytes.{BytesCrate}
use kaze.Ring.Queue.{Queue, kz_ok, kz_buffer, kz_commit}
use kaze.Ring.Layout.{slot, Straight, Holds}
use kaze.Ring.Push.{write_ctx, fill, pushed}
use kaze.Ring.Pop.{Read, popped, kz_read-Holds}
use kaze.Ring.Send.{Sent, Room, kz_write-Sent}
use kaze.Channel.Errors.{get_result}
use kaze.Channel.Calls.{
  is_ready_code, would_block, buffer, buffer_len, copy_to_buffer, read_context, write_context,
  commit, context_write,
}
use kaze.Protocol.Hdr.{Prost, Codes}
use kaze.Protocol.Buf.{BufWrapper}
use kaze.Protocol.Prefix.{CodecError}
use kaze.Protocol.Packet.{Packet, from_host_buf, as_buf, body}
use kaze.Protocol.Packet.Wire.{IsValid}
use kaze.Protocol.Codec.{put_buf}
use kaze.Protocol.Codec.Host.{from_host-as_buf}
use kaze.Protocol.Message.{Message, is_local}
use kaze.Edge.Calls.{no_packet, map_err, read_packet, send_bytes, serve}

module _ {Io : Type 0} (last_os_error : Io) (unknown : ℕ → Io) (B : BytesCrate) (P : Prost) where
  send_bytes-Sent :
      (changes : List (Queue → Queue)) (q : Queue) (msgs : List (List ℕ)) (x : List ℕ)
      (s : Sent q msgs x)
      → send_bytes last_os_error unknown B P changes q x ≡ some (ok tt, pushed s.queue s.pos x)
  unfolding send_bytes write_context is_ready_code get_result context_write would_block buffer_len
      kz_buffer copy_to_buffer commit fill
  send_bytes-Sent changes q msgs x s =
      let room = s.room in
      let committed : kz_commit (fill s.queue s.pos x) (write_ctx s.pos s.len) (length x)
          ≡ (kz_ok, pushed s.queue s.pos x) =
        s.commit_lem in
      rw (s.write_lem, le→ltb (s.len - 4) (length x) (omega arith), committed) refl

  read_packet-Read :
      (changes : List (Queue → Queue)) (pooled : BufWrapper) (q : Queue) (msgs : List (List ℕ))
      (r : Read q msgs)
      → read_packet last_os_error unknown B P changes pooled q
        ≡ some (
          map_err no_packet (from_host_buf B P (record { inner = r.oldest; pos = 0 })),
          popped q r.pos r.oldest,
        )
  unfolding read_packet read_context is_ready_code get_result would_block buffer kz_buffer commit
  read_packet-Read changes pooled q msgs r =
      let size_lem : length r.oldest + 4 - 4 ≡ length r.oldest = omega arith in
      let committed = r.commit_lem (length r.oldest) in
      let filled : B.put [] r.oldest ≡ r.oldest = B.put_lem [] r.oldest in
      rw (r.read_lem, size_lem, r.contents, committed, filled) refl

bytes_of : Outcome CodecError (List ℕ) → List ℕ
bytes_of (ok bs) = bs
bytes_of _ = []

first_of : List (List ℕ) → List ℕ
first_of [] = []
first_of (x ∷ xs) = x

-- The only message of a queue is read.
read-only :
    (q : Queue) (x : List ℕ)
    → Holds q (x ∷ [])
    → q.reading ≡ false
    → (r : Read q (x ∷ [])) × (r.oldest ≡ x)
unfolding first_of
read-only q x h free = elim (kz_read-Holds q (x ∷ []) h free) [
  | inl r ↦ (r, sym (ap first_of r.split))
  | inr e ↦ absurd (cc e.empty)
]

module _ {Io : Type 0} (last_os_error : Io) (unknown : ℕ → Io) (B : BytesCrate) (P : Prost) where
  module _ (changes : List (Queue → Queue)) (pooled : BufWrapper) (q : Queue) (msg : Message) where
    -- The message is taken, and the packet that is then read has its header and its body.
    pub record Delivered : Type 0 where
      pub sent : Queue
      pub serve_lem : serve last_os_error unknown B P changes q msg ≡ some (ok none, sent)
      pub packet : Packet
      pub queue : Queue
      pub read_lem :
          read_packet last_os_error unknown B P changes pooled sent ≡ some (ok packet, queue)
      pub hdr_lem : packet.hdr ≡ msg.packet.hdr
      pub body_lem : body packet ≡ body msg.packet

  -- A message for the host whose packet can be written, as bytes of a 31-bit length, handed to the
  -- edge while the queue is empty and not wrapped and no one reads from or writes to it, is taken
  -- and read on the other side as a packet with the same header and body. There is room for it in
  -- the queue, behind the tail or, if it does not fit there, at the start.
  pub read_packet-serve :
      (changes : List (Queue → Queue)) (pooled : BufWrapper) (q : Queue) (msg : Message)
      (wire : List ℕ)
      → Codes P msg.packet.hdr
      → IsValid P msg.packet
      → is_local msg.destination ≡ true
      → (as_buf B P msg.packet >>= put_buf B P 3 []) ≡ ok wire
      → length wire + 8 ≤ 2 ^ 31
      → Holds q []
      → Straight q.size q.used q.head q.tail q.bytes []
      → q.reading ≡ false
      → q.writing ≡ false
      → Room q (slot wire)
      → Delivered changes pooled q msg
  unfolding bytes_of serve
  read_packet-serve changes pooled q msg wire c v here w short h s rfree wfree fits =
      delivered (kz_write-Sent q [] wire h wfree short (inl s) fits)
    where
      delivered : Sent q [] wire → Delivered changes pooled q msg
      delivered t =
          let (buf, bs, p, e1, e2, e3, e4, e5, _) = from_host-as_buf B P msg.packet 0 c v in
          let same : bs ≡ wire =
            ap bytes_of (sym e2 ∙ ap (λ b. b >>= put_buf B P 3 []) (sym e1) ∙ w) in
          let (r, old) = read-only (pushed t.queue t.pos wire) wire t.holds (t.reader ∙ rfree) in
          record {
            sent = pushed t.queue t.pos wire;
            serve_lem =
                rw (here, w, send_bytes-Sent last_os_error unknown B P changes q [] wire t) refl;
            packet = p;
            queue = popped (pushed t.queue t.pos wire) r.pos r.oldest;
            read_lem =
                read_packet-Read last_os_error unknown B P changes pooled
                  (pushed t.queue t.pos wire) (wire ∷ []) r
                ∙ ap
                    (λ o.
                      some (map_err no_packet o, popped (pushed t.queue t.pos wire) r.pos r.oldest))
                    (ap (λ b. from_host_buf B P (record { inner = b; pos = 0 })) (old ∙ sym same)
                      ∙ e3);
            hdr_lem = e4;
            body_lem = e5;
          }
