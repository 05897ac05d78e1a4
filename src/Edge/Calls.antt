-- ===== src/Edge/Calls.antt =====
-- crates/kaze-edge/src/edge.rs: opening the channel, reading packets from it and sending them to it.
-- A blocking call on another thread is that call; the metrics are left out.
use kaze.Base.{
  ℕ, List, [], length, Bool, false, if◌then◌else◌, Option, none, some, Outcome, ok, err, panic,
  ◌>>=◌,
}
use mathlib.Core.Option.{map}
use kaze.Extern.Bytes.{BytesCrate}
use kaze.Ring.Queue.{Queue, Context, forever, kz_aligned}
use kaze.Channel.Errors.{Error}
use kaze.Channel.Calls.{
  Call, read_context, write_context, would_block, wait_util, buffer, commit, context_write,
}
use kaze.Protocol.Hdr.{Prost}
use kaze.Protocol.Buf.{BufWrapper}
use kaze.Protocol.Buf as Buf
use kaze.Protocol.Prefix.{CodecError}
use kaze.Protocol.Packet.{Packet, from_host_buf, as_buf}
use kaze.Protocol.Codec.{put_buf}
use kaze.Protocol.Message.{Message, is_local}

-- What a call of the edge fails with: a channel's error under the text of its context, the packet's,
-- or those of `Edge::new`.
pub data EdgeError (Io : Type 0) : Type 0 where
  no_read_context not_readable not_committed no_write_context not_writable not_written :
      Error Io → EdgeError Io
  no_packet no_bytes : CodecError → EdgeError Io
  exists_failed not_created : Io → EdgeError Io
  already_exists : ℕ → ℕ → EdgeError Io

abbrev pub map_err : {A E E' : Type 0} → (E → E') → Outcome E A → Outcome E' A
map_err f (ok a) = ok a
map_err f (err e) = err (f e)
map_err f panic = panic

joined : {A : Type 0} → Option (Option A) → Option A
joined none = none
joined (some o) = o

module _ {Io : Type 0} where
  -- `Edge::new`, of what `Channel::exists` says, what `Channel::create` makes of a size, and the size of
  -- a page; a channel that cannot be unlinked is only logged.
  unfoldable pub new {ℓ} :
      {C : Type ℓ}
      → Outcome Io (Option (ℕ × ℕ))
      → (ℕ → Outcome Io C)
      → ℕ
      → ℕ
      → Bool
      → Outcome (EdgeError Io) C
  new (err e) make page_size bufsize unlink = err (exists_failed e)
  new panic make page_size bufsize unlink = panic
  new (ok (some (owner, user))) make page_size bufsize false = err (already_exists owner user)
  new (ok found) make page_size bufsize unlink = elim (make (kz_aligned bufsize page_size)) [
    | ok c ↦ ok c
    | err e ↦ err (not_created e)
    | panic ↦ panic
  ]

  -- `.context(…)?`, then the rest on the queue as the call left it.
  then_on :
      {A B : Type 0}
      → (Error Io → EdgeError Io)
      → (A → Queue → Option (Outcome (EdgeError Io) B × Queue))
      → Call Io A
      → Option (Outcome (EdgeError Io) B × Queue)
  then_on f k (ok a, q) = k a q
  then_on f k (err e, q) = some (err (f e), q)
  then_on f k (panic, q) = some (panic, q)

  module _ (last_os_error : Io) (unknown : ℕ → Io) where
    -- `if ctx.would_block() { ctx = ctx.wait()… }`
    wait_if_blocked : List (Queue → Queue) → Context → Queue → Option (Call Io Context)
    wait_if_blocked changes ctx q =
        if would_block ctx
        then wait_util last_os_error unknown forever changes q ctx
        else some (ok ctx, q)

    module _ (B : BytesCrate) (P : Prost) where
      -- The read bytes fill a cleared buffer of the pool.
      received : BufWrapper → Context → Queue → Option (Outcome (EdgeError Io) Packet × Queue)
      unfolding then_on
      received pooled ctx q =
          let bs = buffer q ctx in
          let bytes : BufWrapper = record (Buf.rewind pooled) { inner = B.put [] bs } in
          then_on not_committed (λ done q'. some (map_err no_packet (from_host_buf B P bytes), q'))
            (commit last_os_error unknown q ctx (length bs))

      -- `Receiver::read_packet`; `none` is a call that still waits.
      unfoldable pub read_packet :
          List (Queue → Queue) → BufWrapper → Queue → Option (Outcome (EdgeError Io) Packet × Queue)
      unfolding received then_on wait_if_blocked joined
      read_packet changes pooled q =
          then_on no_read_context
            (λ ctx q'.
              joined
                (map (then_on not_readable (received pooled)) (wait_if_blocked changes ctx q')))
            (read_context last_os_error unknown q)

      -- `Sender::send_buf` of a buffer with the bytes `bs`.
      unfoldable pub send_bytes :
          List (Queue → Queue) → Queue → List ℕ → Option (Outcome (EdgeError Io) (Unit {0}) × Queue)
      unfolding then_on wait_if_blocked joined
      send_bytes changes q bs =
          then_on no_write_context
            (λ ctx q'. joined (
              map
                (then_on not_writable (λ ctx' q''.
                  then_on not_written (λ n q3. some (ok tt, q3))
                    (context_write last_os_error unknown q'' ctx' bs)))
                (wait_if_blocked changes ctx q')))
            (write_context last_os_error unknown q (length bs))

      -- `Buf::copy_to_slice` copies chunk after chunk, as `put` does.
      sent_buf :
          Outcome CodecError (List ℕ)
          → List (Queue → Queue)
          → Queue
          → Option (Outcome (EdgeError Io) (Unit {0}) × Queue)
      sent_buf (ok bs) changes q = send_bytes changes q bs
      sent_buf (err e) changes q = some (err (no_bytes e), q)
      sent_buf panic changes q = some (panic, q)

      -- `Sender::serve`: a message for the host goes to it, all else is passed on.
      unfoldable pub serve :
          List (Queue → Queue)
          → Queue
          → Message
          → Option (Outcome (EdgeError Io) (Option Message) × Queue)
      unfolding sent_buf
      serve changes q msg =
          let sent = sent_buf (as_buf B P msg.packet >>= put_buf B P 3 []) changes q in
          if is_local msg.destination
          then map (λ r. (r.0 >>= λ _. ok none, r.1)) sent
          else some (ok (some msg), q)
