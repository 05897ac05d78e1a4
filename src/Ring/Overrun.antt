-- ===== src/Ring/Overrun.antt =====
-- A wrapped queue whose tail has no room in front of the head: `used` does not count the bytes
-- behind the mark, so that `kzQ_push` finds them free.
use kaze.Base.{ℕ, ◌+◌, ◌-◌, ◌^◌, ◌≤◌, ◌<◌, ◌≡◌, refl, List, length, false}
use kaze.Ring.Queue.{Queue, kz_ok, kz_write, kz_commit}
use kaze.Ring.Layout.{slot, Holds}
use kaze.Ring.Oldest.{used-le}
use kaze.Ring.Push.{
  write_ctx, with_writer, fill, pushed, Writable, kz_write-behind, kz_commit-write,
}

-- Where a queue's head is in the bytes that a message would take behind the tail, and no more bytes
-- are counted as used than leave it that room, the write and its commit succeed, and the message
-- takes the bytes of the oldest message, which was not read yet.
pub kz_write-overrun :
    (q : Queue) (msgs : List (List ℕ)) (x : List ℕ)
    → Holds q msgs
    → q.writing ≡ false
    → length x + 8 ≤ 2 ^ 31
    → slot x ≤ q.size - q.tail
    → slot x ≤ q.size - q.used
    → q.tail ≤ q.head
    → q.head < q.tail + slot x
    → (kz_write q (length x) ≡ (kz_ok, with_writer q, write_ctx q.tail (q.size - q.tail)))
      × (kz_commit (fill (with_writer q) q.tail x) (write_ctx q.tail (q.size - q.tail)) (length x)
          ≡ (kz_ok, pushed (with_writer q) q.tail x))
      × (q.tail ≤ q.head)
      × (q.head < q.tail + slot x)
kz_write-overrun q msgs x h free short fits room le lt =
    let w : Writable q x = record {
      small = h.bounds.size_small;
      tail_in = h.bounds.tail_in;
      used_in = used-le q.size q.used q.head q.tail q.bytes msgs h;
      free = free;
      short = short;
    } in
    (
      kz_write-behind q x w fits room,
      kz_commit-write q x w (with_writer q) q.tail (q.size - q.tail) refl refl room fits,
      le,
      lt,
    )
