-- ===== src/Channel/Read.antt =====
-- crates/kaze-core/src/lib.rs: reading from a channel, against the messages that its queue holds.
use kaze.Base.{
  ℕ, ◌+◌, ◌-◌, ◌≤◌, ◌<◌, ◌≡◌, refl, arith, List, [], ◌∷◌, length, ◌⊎◌, inl, inr, false, le→ltb,
  lt→ltb, le-or-lt, some, ok, err,
}
use kaze.Ring.Queue.{Queue, kz_buffer, kz_waitcontext, Millis}
use kaze.Ring.Layout.{Holds}
use kaze.Ring.Pop.{Read, ReadNone, with_reader, popped, kz_read-Holds}
use kaze.Channel.Errors.{too_big, get_result}
use kaze.Channel.Calls.{
  is_ready_code, would_block, buffer, read_context, commit, context_read, wait_util, read_util,
}

module _ {Io : Type 0} (last_os_error : Io) (unknown : ℕ → Io) where
  module _ (millis : Millis) (changes : List (Queue → Queue)) (q : Queue) (msgs : List (List ℕ))
      (room : ℕ) where
    -- The oldest message is read into the buffer, and the queue holds the others.
    pub record Received : Type 0 where
      pub oldest : List ℕ
      pub others : List (List ℕ)
      pub split : msgs ≡ oldest ∷ others
      pub fits : length oldest ≤ room
      pub queue : Queue
      pub read_lem :
          read_util last_os_error unknown millis changes q room
          ≡ some ((ok (length oldest), queue), oldest)
      pub holds : Holds queue others
      pub free : queue.reading ≡ false
      pub writing_lem : queue.writing ≡ q.writing

    -- The oldest message does not fit in the buffer; the queue holds what it held, and is still
    -- marked as being read.
    pub record NoRoom : Type 0 where
      pub oldest : List ℕ
      pub others : List (List ℕ)
      pub split : msgs ≡ oldest ∷ others
      pub large : room < length oldest
      pub read_lem :
          read_util last_os_error unknown millis changes q room
          ≡ some ((err too_big, with_reader q), [])

    read_util-Read :
        (r : Read q msgs)
        → length r.oldest ≤ room
        → read_util last_os_error unknown millis changes q room
          ≡ some ((ok (length r.oldest), popped q r.pos r.oldest), r.oldest)
    unfolding read_util read_context is_ready_code wait_util kz_waitcontext get_result context_read
        would_block buffer kz_buffer commit
    read_util-Read r fits =
        let committed = r.commit_lem 0 in
        let size_lem : length r.oldest + 4 - 4 ≡ length r.oldest = omega arith in
        rw (r.read_lem, size_lem, r.contents, le→ltb room (length r.oldest) fits, committed) refl

    read_util-NoRoom :
        (r : Read q msgs)
        → room < length r.oldest
        → read_util last_os_error unknown millis changes q room
          ≡ some ((err too_big, with_reader q), [])
    unfolding read_util read_context is_ready_code wait_util kz_waitcontext get_result context_read
        would_block buffer kz_buffer
    read_util-NoRoom r large =
        let size_lem : length r.oldest + 4 - 4 ≡ length r.oldest = omega arith in
        rw (r.read_lem, size_lem, r.contents, lt→ltb room (length r.oldest) large) refl

  -- Reading from a channel that no one reads from: the oldest message is returned whole and the
  -- queue holds the others, in their order; or it does not fit in the buffer, and the queue stays
  -- as if it was being read; or the queue holds nothing, and `kz_read` answers that the read must
  -- wait.
  pub read_util-Holds :
      (millis : Millis) (changes : List (Queue → Queue)) (q : Queue) (msgs : List (List ℕ))
      (room : ℕ)
      → Holds q msgs
      → q.reading ≡ false
      → Received millis changes q msgs room ⊎ (NoRoom millis changes q msgs room ⊎ ReadNone q msgs)
  read_util-Holds millis changes q msgs room h free = elim (kz_read-Holds q msgs h free) [
    | inr none_left ↦ inr (inr none_left)
    | inl r ↦ elim (le-or-lt (length r.oldest) room) [
      | inl fits ↦ inl (record {
        oldest = r.oldest;
        others = r.others;
        split = r.split;
        fits = fits;
        queue = popped q r.pos r.oldest;
        read_lem = read_util-Read millis changes q msgs room r fits;
        holds = r.left;
        free = refl;
        writing_lem = refl;
      })
      | inr large ↦ inr (
          inl (record {
            oldest = r.oldest;
            others = r.others;
            split = r.split;
            large = large;
            read_lem = read_util-NoRoom millis changes q msgs room r large;
          }))
    ]
  ]
