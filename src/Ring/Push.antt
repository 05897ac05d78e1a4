-- ===== src/Ring/Push.antt =====
-- What `kz_write` and `kz_commit` answer, on every branch.
use kaze.Base.{
  ℕ, ◌+◌, ◌-◌, ◌^◌, ◌≤◌, ◌<◌, ◌≡◌, refl, ap, ◌∙◌, arith, List, length, true, false, ◌==◌, lt→ltb,
  le→ltb,
}
use kaze.Ring.Memory.{write_bytes, write_u32}
use kaze.Ring.Queue.{
  Code, Queue, Context, kz_ok, kz_again, kz_toobig, calc_need, push, commit_push, kz_write,
  kz_commit, mark, u32, sub32, aligned_to,
}
use kaze.Ring.Layout.{slot}
use kaze.Ring.Front.{past_record}
use kaze.Ring.Append.{with_record}
use native.Mathlib.Nat.{mod-eq_of_lt}

-- The context of a writer that may write `len` bytes at `pos`.
abbrev pub write_ctx : ℕ → ℕ → Context
write_ctx pos len = record { is_read = false; pos = pos; len = len; result = kz_ok }

abbrev pub with_writer : Queue → Queue
with_writer q = record q { writing = true }

-- The queue while it is written to, once its tail is marked.
abbrev pub with_mark : Queue → Queue
with_mark q = record q { writing = true; bytes = write_u32 q.bytes q.tail mark }

-- The message is copied to the buffer of the context at `pos`.
unfoldable pub fill : Queue → ℕ → List ℕ → Queue
fill q pos x = record q { bytes = write_bytes q.bytes (pos + 4) x }

abbrev pub pushed : Queue → ℕ → List ℕ → Queue
pushed q pos x = record q {
  bytes = with_record q.bytes pos x;
  tail = past_record q.size pos x;
  used = q.used + slot x;
  writing = false;
}

-- What `kz_write` relies on: numbers of a queue in use that no one writes to, and a message with a
-- length of 31 bits.
pub record Writable (q : Queue) (x : List ℕ) : Type 0 where
  pub small : q.size < 2 ^ 31
  pub tail_in : q.tail < q.size
  pub used_in : q.used ≤ q.size
  pub free : q.writing ≡ false
  pub short : length x + 8 ≤ 2 ^ 31

module _ (q : Queue) (x : List ℕ) (w : Writable q x) where
  slot_lem : u32 (aligned_to (u32 (length x) + 4) 4) ≡ slot x
  slot_lem =
      let short = w.short in
      ap (λ n. u32 (aligned_to (n + 4) 4)) (mod-eq_of_lt {n = length x} (omega arith))
      ∙ mod-eq_of_lt (omega arith)

  remain_lem : sub32 q.size q.tail ≡ q.size - q.tail
  remain_lem = let small = w.small in let le = w.tail_in in omega arith

  free_lem : sub32 q.size q.used ≡ q.size - q.used
  free_lem = let small = w.small in let le = w.used_in in omega arith

  opened : (q.used == mark) ≡ false
  opened = let small = w.small in let le = w.used_in in ground arith

  need_nowrap : slot x ≤ q.size - q.tail → calc_need q (length x) ≡ slot x
  unfolding calc_need
  need_nowrap h = rw (slot_lem, remain_lem, le→ltb (q.size - q.tail) (slot x) h) refl

  need_wrap : q.size - q.tail < slot x → calc_need q (length x) ≡ slot x + (q.size - q.tail)
  unfolding calc_need
  need_wrap h =
      let short = w.short in
      let small = w.small in
      rw (slot_lem, remain_lem, lt→ltb (q.size - q.tail) (slot x) h) (mod-eq_of_lt (omega arith))

  -- What the attempt to push answers is the answer, where the message is not too big.
  kz_write-push :
      (need : ℕ) (r : Code) (q' : Queue) (ctx : Context)
      → calc_need q (length x) ≡ need
      → need ≤ q.size
      → push (with_writer q) (write_ctx 0 need) q.used ≡ (r, q', ctx)
      → kz_write q (length x) ≡ (r, q', record ctx { result = r })
  unfolding kz_write
  kz_write-push need r q' ctx n fits p =
      let free = w.free in rw (n, le→ltb q.size need fits, opened, free, p) refl

  again_lem :
      (need : ℕ)
      → q.size - q.used < need
      → push (with_writer q) (write_ctx 0 need) q.used ≡ (kz_again, with_writer q, write_ctx 0 need)
  unfolding push
  again_lem need h = rw (free_lem, lt→ltb (q.size - q.used) need h) refl

  -- The message stands behind the last.
  pub kz_write-behind :
      slot x ≤ q.size - q.tail
      → slot x ≤ q.size - q.used
      → kz_write q (length x) ≡ (kz_ok, with_writer q, write_ctx q.tail (q.size - q.tail))
  kz_write-behind fits room =
      kz_write-push (slot x) kz_ok (with_writer q) (write_ctx q.tail (q.size - q.tail))
        (need_nowrap fits) (omega arith) granted
    where
      granted :
          push (with_writer q) (write_ctx 0 (slot x)) q.used
          ≡ (kz_ok, with_writer q, write_ctx q.tail (q.size - q.tail))
      granted =
          unfold push in
          rw
            (
              free_lem,
              remain_lem,
              le→ltb (q.size - q.used) (slot x) room,
              le→ltb (q.size - q.tail) (slot x) fits,
            )
            refl

  -- The message stands at the start, behind a mark.
  pub kz_write-start :
      q.size - q.tail < slot x
      → slot x + (q.size - q.tail) ≤ q.size - q.used
      → kz_write q (length x)
        ≡ (kz_ok, with_mark q, write_ctx 0 (q.size - q.used - (q.size - q.tail)))
  kz_write-start over room =
      let small = w.small in
      kz_write-push (slot x + (q.size - q.tail)) kz_ok (with_mark q)
        (write_ctx 0 (q.size - q.used - (q.size - q.tail))) (need_wrap over) (omega arith) granted
    where
      granted :
          push (with_writer q) (write_ctx 0 (slot x + (q.size - q.tail))) q.used
          ≡ (kz_ok, with_mark q, write_ctx 0 (q.size - q.used - (q.size - q.tail)))
      granted =
          let pos = w.tail_in in
          unfold push in
          rw
            (
              free_lem,
              remain_lem,
              le→ltb (q.size - q.used) (slot x + (q.size - q.tail)) room,
              lt→ltb (q.size - q.tail) (slot x + (q.size - q.tail)) (omega arith),
            )
            refl

  -- The message must wait.
  pub kz_write-behind-Again :
      slot x ≤ q.size - q.tail
      → q.size - q.used < slot x
      → kz_write q (length x)
        ≡ (kz_again, with_writer q, record (write_ctx 0 (slot x)) { result = kz_again })
  kz_write-behind-Again fits full =
      kz_write-push (slot x) kz_again (with_writer q) (write_ctx 0 (slot x)) (need_nowrap fits)
        (omega arith) (again_lem (slot x) full)

  pub kz_write-start-Again :
      q.size - q.tail < slot x
      → slot x + (q.size - q.tail) ≤ q.size
      → q.size - q.used < slot x + (q.size - q.tail)
      → kz_write q (length x) ≡ (
        kz_again,
        with_writer q,
        record (write_ctx 0 (slot x + (q.size - q.tail))) { result = kz_again },
      )
  kz_write-start-Again over fits full =
      kz_write-push (slot x + (q.size - q.tail)) kz_again (with_writer q)
        (write_ctx 0 (slot x + (q.size - q.tail))) (need_wrap over) fits
        (again_lem (slot x + (q.size - q.tail)) full)

  -- The message does not fit between the tail and the end, nor in what would be left without that.
  pub kz_write-Toobig :
      q.size - q.tail < slot x
      → q.size < slot x + (q.size - q.tail)
      → kz_write q (length x) ≡ (kz_toobig, q, write_ctx 0 (slot x + (q.size - q.tail)))
  unfolding kz_write
  kz_write-Toobig over big =
      rw (need_wrap over, lt→ltb q.size (slot x + (q.size - q.tail)) big) refl

  -- Committing puts the length in front of the message and moves the tail behind it.
  pub kz_commit-write :
      (q' : Queue) (pos len : ℕ)
      → q'.size ≡ q.size
      → q'.used ≡ q.used
      → slot x ≤ q.size - q.used
      → slot x ≤ len
      → kz_commit (fill q' pos x) (write_ctx pos len) (length x) ≡ (kz_ok, pushed q' pos x)
  unfolding kz_commit commit_push fill
  kz_commit-write q' pos len s u room le =
      let small = w.small in
      let short = w.short in
      let is_open : (q'.used == mark) ≡ false = ap (λ n. n == mark) u ∙ opened in
      let header : u32 (length x) ≡ length x = mod-eq_of_lt (omega arith) in
      let used' : u32 (q'.used + slot x) ≡ q'.used + slot x = mod-eq_of_lt (omega arith) in
      rw (slot_lem, is_open, le→ltb len (slot x) le, header, used') refl
