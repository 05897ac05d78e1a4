-- ===== src/Channel/Write.antt =====
-- crates/kaze-core/src/lib.rs: writing to a channel, against the messages that its queue holds.
use kaze.Base.{
  ℕ, ◌+◌, ◌-◌, ◌^◌, ◌≤◌, ◌≡◌, refl, arith, List, [], ◌∷◌, ◌++◌, length, ◌⊎◌, inl, inr, false,
  le→ltb, some, ok, err,
}
use kaze.Ring.Queue.{Queue, kz_ok, kz_buffer, kz_commit, kz_waitcontext, Millis}
use kaze.Ring.Layout.{Holds, slot}
use kaze.Ring.Push.{write_ctx, fill, pushed}
use kaze.Ring.Send.{Sent, Again, Toobig, TooLarge, Room, InFront, kz_write-Holds}
use kaze.Channel.Errors.{too_big, from_retcode, get_result}
use kaze.Channel.Calls.{
  is_ready_code, would_block, buffer_len, copy_to_buffer, write_context, commit, context_write,
  wait_util, write_util,
}

module _ {Io : Type 0} (last_os_error : Io) (unknown : ℕ → Io) where
  module _ (millis : Millis) (changes : List (Queue → Queue)) (q : Queue) (msgs : List (List ℕ))
      (x : List ℕ) where
    -- What becomes of the message: it is the queue's last, or it is too big.
    pub record Written : Type 0 where
      pub queue : Queue
      pub write_lem : write_util last_os_error unknown millis changes q x ≡ some (ok tt, queue)
      pub holds : Holds queue (msgs ++ (x ∷ []))
      pub fits : Room q (slot x)
      pub free : queue.writing ≡ false
      pub reading_lem : queue.reading ≡ q.reading

    pub record TooBig : Type 0 where
      pub write_lem : write_util last_os_error unknown millis changes q x ≡ some (err too_big, q)
      pub big : TooLarge q (slot x)

    write_util-Sent :
        (s : Sent q msgs x)
        → write_util last_os_error unknown millis changes q x ≡ some (ok tt, pushed s.queue s.pos x)
    unfolding write_util write_context is_ready_code wait_util kz_waitcontext get_result
        context_write would_block buffer_len kz_buffer copy_to_buffer commit fill
    write_util-Sent s =
        let room = s.room in
        let committed : kz_commit (fill s.queue s.pos x) (write_ctx s.pos s.len) (length x)
            ≡ (kz_ok, pushed s.queue s.pos x) =
          s.commit_lem in
        rw (s.write_lem, le→ltb (s.len - 4) (length x) (omega arith), committed) refl

    write_util-Toobig :
        Toobig q msgs x
        → write_util last_os_error unknown millis changes q x ≡ some (err too_big, q)
    unfolding write_util write_context is_ready_code from_retcode
    write_util-Toobig s = rw s.write_lem refl

  -- Writing a message, with a length of 31 bits, to a channel that no one writes to, with room in
  -- front of the head in case that the queue has wrapped: where there is room for it behind the
  -- tail or, if it does not fit there, at the start, the write succeeds and the message is the last
  -- that the queue holds; where it does not fit behind the tail, nor at the start of an empty queue
  -- with this tail, it is too big and the queue is unchanged; and else `kz_write` answers that the
  -- write must wait, and keeps the queue for the writer.
  pub write_util-Holds :
      (millis : Millis) (changes : List (Queue → Queue)) (q : Queue) (msgs : List (List ℕ))
      (x : List ℕ)
      → Holds q msgs
      → q.writing ≡ false
      → length x + 8 ≤ 2 ^ 31
      → InFront q msgs x
      → Written millis changes q msgs x ⊎ (TooBig millis changes q msgs x ⊎ Again q msgs x)
  write_util-Holds millis changes q msgs x h free short front =
      elim (kz_write-Holds q msgs x h free short front) [
        | inl s ↦ inl (record {
          queue = pushed s.queue s.pos x;
          write_lem = write_util-Sent millis changes q msgs x s;
          holds = s.holds;
          fits = s.fits;
          free = refl;
          reading_lem = s.reader;
        })
        | inr (inl again) ↦ inr (inr again)
        | inr (inr big) ↦ inr (
            inl
              (record { write_lem = write_util-Toobig millis changes q msgs x big; big = big.big }))
      ]
