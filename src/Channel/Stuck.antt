-- ===== src/Channel/Stuck.antt =====
-- crates/kaze-core/src/lib.rs: a read into a buffer that is too small, and the reads after it.
use kaze.Base.{
  ℕ, ◌<◌, ◌≡◌, refl, arith, List, [], ◌∷◌, length, inl, inr, false, ◌==◌, some, err, ap,
}
use kaze.Ring.Queue.{Queue, Millis, kz_read, mark}
use kaze.Ring.Layout.{Holds}
use kaze.Ring.Oldest.{used-le}
use kaze.Ring.Pop.{with_reader}
use kaze.Channel.Errors.{too_big, busy, from_retcode}
use kaze.Channel.Calls.{is_ready_code, read_context, read_util}
use kaze.Channel.Read.{read_util-Holds}

oldest_len : List (List ℕ) → ℕ
oldest_len [] = 0
oldest_len (x ∷ xs) = length x

module _ {Io : Type 0} (last_os_error : Io) (unknown : ℕ → Io) where
  read_busy :
      (millis : Millis) (changes : List (Queue → Queue)) (q : Queue) (room : ℕ)
      → (q.used == mark) ≡ false
      → read_util last_os_error unknown millis changes (with_reader q) room
        ≡ some ((err busy, with_reader q), [])
  unfolding read_util read_context kz_read is_ready_code from_retcode
  read_busy millis changes q room opened = rw opened refl

  -- Once a read, of a channel that no one reads from, finds that its buffer is too small for the
  -- oldest message, every later read answers that the channel is busy, however large its buffer
  -- is, and changes nothing.
  pub read_util-Busy :
      (millis : Millis) (changes : List (Queue → Queue)) (q : Queue) (x : List ℕ)
      (xs : List (List ℕ)) (room room' : ℕ)
      → Holds q (x ∷ xs)
      → q.reading ≡ false
      → room < length x
      → (read_util last_os_error unknown millis changes q room
          ≡ some ((err too_big, with_reader q), []))
        × (read_util last_os_error unknown millis changes (with_reader q) room'
            ≡ some ((err busy, with_reader q), []))
  unfolding oldest_len
  read_util-Busy millis changes q x xs room room' h free large =
      let le = used-le q.size q.used q.head q.tail q.bytes (x ∷ xs) h in
      let small = h.bounds.size_small in
      let opened : (q.used == mark) ≡ false = ground arith in
      (
        elim (read_util-Holds last_os_error unknown millis changes q (x ∷ xs) room h free) [
          | inl r ↦
              let same : length x ≡ length r.oldest = ap oldest_len r.split in
              let fits = r.fits in absurd (omega arith)
          | inr (inl n) ↦ n.read_lem
          | inr (inr e) ↦ let same : length x ≡ 0 = ap oldest_len e.empty in absurd (omega arith)
        ],
        read_busy millis changes q room' opened,
      )
