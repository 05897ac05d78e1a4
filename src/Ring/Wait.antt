-- ===== src/Ring/Wait.antt =====
-- crates/kaze-core/kaze.h: `kz_waitcontext` for a writer and for a reader.
use kaze.Base.{ℕ, ◌-◌, ◌^◌, ◌≤◌, ◌<◌, ◌≡◌, refl, arith, [], ◌∷◌, false, ◌==◌, le→ltb, lt→ltb, some}
use kaze.Ring.Queue.{
  Queue, Context, kz_ok, kz_again, kz_timeout, at_once, in_time, push, look, wait_loop,
  kz_waitcontext, mark, sub32,
}

-- The context of a side that waits.
abbrev pub waiting : Context → Context
waiting ctx = record ctx { result = kz_again }

-- The context of a writer for `len` bytes, before and after it is given those behind the tail.
abbrev pub asked : ℕ → Context
asked len = record { is_read = false; pos = 0; len = len; result = kz_again }

abbrev pub given : Queue → Context
given q = record { is_read = false; pos = q.tail; len = q.size - q.tail; result = kz_ok }

module _ (q : Queue) (need : ℕ) (small : q.size < 2 ^ 31) (used_in : q.used ≤ q.size)
    (tail_in : q.tail < q.size) where
  remain_lem : sub32 q.size q.tail ≡ q.size - q.tail
  remain_lem = omega arith

  free_lem : sub32 q.size q.used ≡ q.size - q.used
  free_lem = omega arith

  opened : (q.used == mark) ≡ false
  opened = ground arith

  look-given :
      need ≤ q.size - q.tail → need ≤ q.size - q.used → look q (asked need) ≡ (kz_ok, q, given q)
  unfolding look push
  look-given fits room =
      rw
        (
          opened,
          free_lem,
          remain_lem,
          le→ltb (q.size - q.used) need room,
          le→ltb (q.size - q.tail) need fits,
        )
        refl

  -- The second look asks for all the bytes up to the queue's end.
  look-given-Again : q.tail < q.used → look q (given q) ≡ (kz_again, q, waiting (given q))
  unfolding look push
  look-given-Again lt =
      rw (opened, free_lem, lt→ltb (q.size - q.used) (q.size - q.tail) (omega arith)) refl

  -- A writer that does not wait is given the bytes that it needs, where they are free behind the
  -- tail; one that waits for some time is not, and its call times out, where more is used than
  -- stands in front of the tail and the queue does not change meanwhile.
  pub kz_waitcontext-write :
      need ≤ q.size - q.tail
      → need ≤ q.size - q.used
      → q.tail < q.used
      → (kz_waitcontext at_once [] q (asked need) ≡ some (kz_ok, q, given q))
        × (kz_waitcontext in_time ((λ r. r) ∷ []) q (asked need)
            ≡ some (kz_timeout, q, waiting (given q)))
  unfolding kz_waitcontext wait_loop
  kz_waitcontext-write fits room lt =
      (rw (look-given fits room) refl, rw (look-given fits room, look-given-Again lt) refl)
