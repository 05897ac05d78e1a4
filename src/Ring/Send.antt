-- ===== src/Ring/Send.antt =====
-- Writing to a queue: `kz_write`, the copy of the message and `kz_commit` against the messages the
-- queue holds.
use kaze.Base.{
  ℕ, ◌+◌, ◌-◌, ◌^◌, ◌≤◌, ◌<◌, ◌≡◌, refl, sym, ◌∙◌, subst, arith, List, [], ◌∷◌, ◌++◌, length, ◌⊎◌,
  inl, inr, false, le-or-lt,
}
use kaze.Ring.Queue.{Queue, kz_ok, kz_again, kz_toobig, kz_write, kz_commit}
use kaze.Ring.Layout.{slot, Stored, Stored-le, InBounds, Straight, Lies, Holds}
use kaze.Ring.Oldest.{used-le}
use kaze.Ring.Front.{past_record}
use kaze.Ring.Append.{with_record, straight-append, straight-wrap, straight-around, wrapped-append}
use kaze.Ring.Push.{
  write_ctx, with_writer, with_mark, fill, pushed, Writable, kz_write-behind, kz_write-start,
  kz_write-behind-Again, kz_write-start-Again, kz_write-Toobig, kz_commit-write,
}

-- What becomes of a record of `need` bytes: there is room for it behind the tail or, where it does not
-- fit there, at the start, with the bytes behind the tail left unused.
abbrev pub Room : Queue → ℕ → Type 0
Room q need =
    ((need ≤ q.size - q.tail) × (need ≤ q.size - q.used))
    ⊎ ((q.size - q.tail < need) × (need + (q.size - q.tail) ≤ q.size - q.used))

-- There would be in an empty queue with this tail, but not with what the queue holds.
abbrev pub Full : Queue → ℕ → Type 0
Full q need =
    ((need ≤ q.size - q.tail) × (q.size - q.used < need))
    ⊎ ((q.size - q.tail < need)
        × (need + (q.size - q.tail) ≤ q.size)
        × (q.size - q.used < need + (q.size - q.tail)))

-- It does not fit behind the tail, nor would it at the start of an empty queue with this tail.
abbrev pub TooLarge : Queue → ℕ → Type 0
TooLarge q need = (q.size - q.tail < need) × (q.size < need + (q.size - q.tail))

-- The message was written at `pos` of a buffer that has room for it, and is now the queue's last.
module _ (q : Queue) (msgs : List (List ℕ)) (x : List ℕ) where
  pub record Sent : Type 0 where
    pub pos : ℕ
    pub len : ℕ
    pub queue : Queue
    pub write_lem : kz_write q (length x) ≡ (kz_ok, queue, write_ctx pos len)
    pub room : length x + 4 ≤ len
    pub fits : Room q (slot x)
    pub reader : queue.reading ≡ q.reading
    pub commit_lem :
        kz_commit (fill queue pos x) (write_ctx pos len) (length x) ≡ (kz_ok, pushed queue pos x)
    pub holds : Holds (pushed queue pos x) (msgs ++ (x ∷ []))

  -- There is no room now, and the queue is kept for the writer; or there never is as long as the tail is
  -- where it is.
  pub record Again : Type 0 where
    pub len : ℕ
    pub write_lem :
        kz_write q (length x)
        ≡ (kz_again, with_writer q, record (write_ctx 0 len) { result = kz_again })
    pub full : Full q (slot x)

  pub record Toobig : Type 0 where
    pub len : ℕ
    pub write_lem : kz_write q (length x) ≡ (kz_toobig, q, write_ctx 0 len)
    pub big : TooLarge q (slot x)

  abbrev pub Outcome : Type 0
  Outcome = Sent ⊎ (Again ⊎ Toobig)

-- There is room in front of the head, in case that the tail is there.
abbrev pub InFront : Queue → List (List ℕ) → List ℕ → Type 0
InFront q msgs x = Straight q.size q.used q.head q.tail q.bytes msgs ⊎ (q.tail + slot x ≤ q.head)

module _ (q : Queue) (msgs : List (List ℕ)) (x : List ℕ) (w : Writable q x) where
  -- What the queue holds once the message stands behind the last.
  behind-Straight :
      InBounds q.size q.head q.tail
      → Straight q.size q.used q.head q.tail q.bytes msgs
      → slot x ≤ q.size - q.tail
      → slot x ≤ q.size - q.used
      → Holds (pushed (with_writer q) q.tail x) (msgs ++ (x ∷ []))
  behind-Straight b s fits room = elim (s.at_tail) [
    | inl (t, _) ↦
        straight-append q.size q.used q.head q.tail q.bytes msgs x b
          (subst (λ e. Stored q.bytes q.head msgs e) (sym t) s.stored) (s.used_lem ∙ sym t)
          (let lt = w.tail_in in omega arith)
    | inr (t, e) ↦
        straight-around q.size q.used q.head q.tail q.bytes msgs x b
          (subst (λ e. Stored q.bytes q.head msgs e) e s.stored) t (s.used_lem ∙ e)
          (let u = s.used_lem in omega arith)
  ]

  Holds-behind :
      Holds q msgs
      → InFront q msgs x
      → slot x ≤ q.size - q.tail
      → slot x ≤ q.size - q.used
      → Holds (pushed (with_writer q) q.tail x) (msgs ++ (x ∷ []))
  Holds-behind h (inl s) fits room = behind-Straight h.bounds s fits room
  Holds-behind h (inr front) fits room = elim (h.layout) [
    | inl s ↦ behind-Straight h.bounds s fits room
    | inr v ↦
        subst
          (λ ms.
            Lies q.size (q.used + slot x) q.head (past_record q.size q.tail x)
              (with_record q.bytes q.tail x) (ms ++ (x ∷ [])))
          (sym v.joined)
          (wrapped-append q.size q.used q.head q.tail v.end q.bytes v.first v.second x h.bounds
            v.stored_first v.marked v.stored_second v.wrapped_lem front)
  ]

  -- What the queue holds once it has wrapped.
  Holds-start :
      Holds q msgs
      → q.size - q.tail < slot x
      → slot x + (q.size - q.tail) ≤ q.size - q.used
      → Holds (pushed (with_mark q) 0 x) (msgs ++ (x ∷ []))
  Holds-start h over room = elim (h.layout) [
    | inl s ↦ elim (s.at_tail) [
      | inl (t, _) ↦
          straight-wrap q.size q.used q.head q.tail q.bytes msgs x h.bounds
            (subst (λ e. Stored q.bytes q.head msgs e) (sym t) s.stored) (s.used_lem ∙ sym t)
            (let u = s.used_lem in let lt = w.tail_in in omega arith)
      | inr (t, e) ↦ absurd (omega arith)
    ]
    | inr v ↦
        let u = v.wrapped_lem in
        let lt = w.tail_in in
        let le = Stored-le q.bytes q.head v.first v.end v.stored_first in
        let apart = v.apart in absurd (omega arith)
  ]

  sent-behind :
      Holds q msgs
      → InFront q msgs x
      → slot x ≤ q.size - q.tail
      → slot x ≤ q.size - q.used
      → Sent q msgs x
  sent-behind h front fits room = record {
    pos = q.tail;
    len = q.size - q.tail;
    queue = with_writer q;
    write_lem = kz_write-behind q x w fits room;
    room = omega arith;
    fits = inl (fits, room);
    reader = refl;
    commit_lem = kz_commit-write q x w (with_writer q) q.tail (q.size - q.tail) refl refl room fits;
    holds = Holds-behind h front fits room;
  }

  sent-start :
      Holds q msgs
      → q.size - q.tail < slot x
      → slot x + (q.size - q.tail) ≤ q.size - q.used
      → Sent q msgs x
  sent-start h over room = record {
    pos = 0;
    len = q.size - q.used - (q.size - q.tail);
    queue = with_mark q;
    write_lem = kz_write-start q x w over room;
    room = omega arith;
    fits = inr (over, room);
    reader = refl;
    commit_lem =
        kz_commit-write q x w (with_mark q) 0 (q.size - q.used - (q.size - q.tail)) refl refl
          (omega arith) (omega arith);
    holds = Holds-start h over room;
  }

  outcome-behind : Holds q msgs → InFront q msgs x → slot x ≤ q.size - q.tail → Outcome q msgs x
  outcome-behind h front fits = elim (le-or-lt (slot x) (q.size - q.used)) [
    | inl room ↦ inl (sent-behind h front fits room)
    | inr full ↦ inr (
        inl (record {
          len = slot x;
          write_lem = kz_write-behind-Again q x w fits full;
          full = inl (fits, full);
        }))
  ]

  outcome-start : Holds q msgs → q.size - q.tail < slot x → Outcome q msgs x
  outcome-start h over = elim (le-or-lt (slot x + (q.size - q.tail)) q.size) [
    | inr big ↦ inr (
        inr (record {
          len = slot x + (q.size - q.tail);
          write_lem = kz_write-Toobig q x w over big;
          big = (over, big);
        }))
    | inl fits ↦ elim (le-or-lt (slot x + (q.size - q.tail)) (q.size - q.used)) [
      | inl room ↦ inl (sent-start h over room)
      | inr full ↦ inr (
          inl (record {
            len = slot x + (q.size - q.tail);
            write_lem = kz_write-start-Again q x w over fits full;
            full = inr (over, fits, full);
          }))
    ]
  ]

module _ (q : Queue) (msgs : List (List ℕ)) (x : List ℕ) (h : Holds q msgs)
    (free : q.writing ≡ false) (short : length x + 8 ≤ 2 ^ 31) where
  writable : Writable q x
  writable = record {
    small = h.bounds.size_small;
    tail_in = h.bounds.tail_in;
    used_in = used-le q.size q.used q.head q.tail q.bytes msgs h;
    free = free;
    short = short;
  }

  -- A message that there is room for is written.
  pub kz_write-Sent : InFront q msgs x → Room q (slot x) → Sent q msgs x
  kz_write-Sent front (inl (fits, room)) = sent-behind q msgs x writable h front fits room
  kz_write-Sent front (inr (over, room)) = sent-start q msgs x writable h over room

-- Writing a message to a queue that no one writes to, with room in front of the head in case that
-- the queue has wrapped: the message is then the last of those that the queue holds, or the queue
-- is full, or the message does not fit in it.
pub kz_write-Holds :
    (q : Queue) (msgs : List (List ℕ)) (x : List ℕ)
    → Holds q msgs
    → q.writing ≡ false
    → length x + 8 ≤ 2 ^ 31
    → InFront q msgs x
    → Outcome q msgs x
kz_write-Holds q msgs x h free short front =
    let w = writable q msgs x h free short in
    elim (le-or-lt (slot x) (q.size - q.tail)) [
      | inl fits ↦ outcome-behind q msgs x w h front fits
      | inr over ↦ outcome-start q msgs x w h over
    ]
