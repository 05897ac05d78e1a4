-- ===== src/Ring/Pop.antt =====
-- Reading from a queue: `kz_read`, `kz_buffer` and `kz_commit` against the messages it holds.
use kaze.Base.{
  ℕ, ◌+◌, ◌-◌, ◌^◌, ◌≤◌, ◌<◌, ◌≡◌, refl, arith, List, [], ◌∷◌, length, ◌⊎◌, inl, inr, true, false,
  ◌==◌,
}
use kaze.Ring.Memory.{read_bytes}
use kaze.Ring.Queue.{
  Queue, Context, kz_ok, kz_again, pop, commit_pop, kz_read, kz_commit, record_at, mark, u32, sub32,
}
use kaze.Ring.Layout.{slot, Holds}
use kaze.Ring.Front.{past_record}
use native.Mathlib.Nat.{mod-eq_of_lt}
use kaze.Ring.Oldest.{front-or-none, used-le}

-- The context that reads `len` bytes at `pos`.
abbrev pub read_ctx : ℕ → ℕ → Context
read_ctx pos len = record { is_read = true; pos = pos; len = len; result = kz_ok }

-- The queue while a side reads from it, and after it has read the record at `pos`.
abbrev pub with_reader : Queue → Queue
with_reader q = record q { reading = true }

abbrev pub popped : Queue → ℕ → List ℕ → Queue
popped q pos x = record q {
  head = past_record q.size pos x;
  used = q.used - slot x;
  reading = false;
}

kz_read-none :
    (q : Queue)
    → q.reading ≡ false
    → q.used ≡ 0
    → kz_read q ≡ (kz_again, with_reader q, record (read_ctx 0 0) { result = kz_again })
unfolding kz_read pop
kz_read-none q free e = simp (free, e) refl

kz_read-some :
    (q : Queue) (pos len : ℕ)
    → q.reading ≡ false
    → (q.used == mark) ≡ false
    → (q.used == 0) ≡ false
    → record_at q.bytes q.head ≡ (pos, len)
    → kz_read q ≡ (kz_ok, with_reader q, read_ctx pos (len + 4))
unfolding kz_read pop
kz_read-some q pos len free small more at = simp (free, small, more, at) refl

commit-read :
    (q : Queue) (pos : ℕ) (x : List ℕ) (n : ℕ)
    → (q.used == mark) ≡ false
    → q.used < 2 ^ 31
    → slot x ≤ q.used
    → kz_commit (with_reader q) (read_ctx pos (length x + 4)) n ≡ (kz_ok, popped q pos x)
unfolding kz_commit commit_pop
commit-read q pos x n opened small le =
    let size_lem : u32 (slot x) ≡ slot x = mod-eq_of_lt (omega arith) in
    let used_lem : sub32 q.used (slot x) ≡ q.used - slot x = omega arith in
    rw (opened, size_lem, used_lem) refl

-- What reading finds: the oldest message, at `pos`, and the queue without it.
module _ (q : Queue) (msgs : List (List ℕ)) where
  pub record Read : Type 0 where
    pub oldest : List ℕ
    pub others : List (List ℕ)
    pub split : msgs ≡ oldest ∷ others
    pub pos : ℕ
    pub read_lem : kz_read q ≡ (kz_ok, with_reader q, read_ctx pos (length oldest + 4))
    pub contents : read_bytes q.bytes (pos + 4) (length oldest) ≡ oldest
    pub commit_lem :
        (n : ℕ)
        → kz_commit (with_reader q) (read_ctx pos (length oldest + 4)) n
          ≡ (kz_ok, popped q pos oldest)
    pub left : Holds (popped q pos oldest) others

  pub record ReadNone : Type 0 where
    pub empty : msgs ≡ []
    pub read_lem :
        kz_read q ≡ (kz_again, with_reader q, record (read_ctx 0 0) { result = kz_again })

-- Reading from a queue that no one reads from takes its oldest message, and nothing else changes
-- what the queue holds; where it holds none, it says so.
pub kz_read-Holds :
    (q : Queue) (msgs : List (List ℕ))
    → Holds q msgs
    → q.reading ≡ false
    → Read q msgs ⊎ ReadNone q msgs
kz_read-Holds q msgs h free = elim (front-or-none q.size q.used q.head q.tail q.bytes msgs h) [
  | inl (e, no_msgs) ↦ inr (record { empty = no_msgs; read_lem = kz_read-none q free e })
  | inr f ↦
      let small = used-le q.size q.used q.head q.tail q.bytes msgs h in
      let size_small = h.bounds.size_small in
      let counted = f.counted in
      let opened : (q.used == mark) ≡ false = ground arith in
      let more : (q.used == 0) ≡ false = ground arith in
      inl (record {
        oldest = f.oldest;
        others = f.others;
        split = f.split;
        pos = f.pos;
        read_lem = kz_read-some q f.pos (length f.oldest) free opened more f.record_lem;
        contents = f.at_pos.1;
        commit_lem = λ n. commit-read q f.pos f.oldest n opened (omega arith) counted;
        left = f.left;
      })
]
