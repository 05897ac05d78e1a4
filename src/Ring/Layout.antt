-- ===== src/Ring/Layout.antt =====
-- The messages that stand in a queue's bytes.
use kaze.Base.{
  ℕ, ◌+◌, ◌%◌, ◌^◌, ◌≤◌, ◌<◌, ◌≡◌, refl, sym, ◌∙◌, subst, arith, List, [], ◌∷◌, ◌++◌, length, ◌⊎◌,
}
use kaze.Ring.Memory.{Mem, read_bytes, read_u32, Agree, read-Agree, read_u32-Agree}
use kaze.Ring.Queue.{Queue, aligned_to, mark}

-- The bytes that a message takes: its length and itself, up to a multiple of four.
abbrev pub slot : List ℕ → ℕ
slot x = aligned_to (length x + 4) 4

-- One message stands at `p`.
abbrev pub RecordAt : Mem → ℕ → List ℕ → Type 0
RecordAt m p x = (read_u32 m p ≡ length x) × (read_bytes m (p + 4) (length x) ≡ x)

-- The messages stand one behind the other, from `p` on; `e` is the end of the last.
unfoldable pub Stored : Mem → ℕ → List (List ℕ) → ℕ → Type 0
Stored m p [] e = p ≡ e
Stored m p (x ∷ xs) e = RecordAt m p x × Stored m (p + slot x) xs e

pub Stored-le : (m : Mem) (p : ℕ) (xs : List (List ℕ)) (e : ℕ) → Stored m p xs e → p ≤ e
unfolding Stored
Stored-le m p [] e s = omega arith
Stored-le m p (x ∷ xs) e (r, s) = let h = Stored-le m (p + slot x) xs e s in omega arith

pub Stored-aligned :
    (m : Mem) (p : ℕ) (xs : List (List ℕ)) (e : ℕ) → Stored m p xs e → p % 4 ≡ 0 → e % 4 ≡ 0
unfolding Stored
Stored-aligned m p [] e s h = omega arith
Stored-aligned m p (x ∷ xs) e (r, s) h = Stored-aligned m (p + slot x) xs e s (omega arith)

-- Nothing stands where no byte is taken.
pub Stored-nil : (m : Mem) (p : ℕ) (xs : List (List ℕ)) → Stored m p xs p → xs ≡ []
unfolding Stored
Stored-nil m p [] s = refl
Stored-nil m p (x ∷ xs) (r, s) = let h = Stored-le m (p + slot x) xs p s in absurd (omega arith)

-- The messages still stand in a memory that agrees on their bytes.
pub Stored-Agree :
    (m m' : Mem) (p : ℕ) (xs : List (List ℕ)) (e : ℕ)
    → Agree m m' p e
    → Stored m p xs e
    → Stored m' p xs e
unfolding Stored
Stored-Agree m m' p [] e agree s = s
Stored-Agree m m' p (x ∷ xs) e agree ((n, bs), s) =
    let h = Stored-le m (p + slot x) xs e s in
    (
      (
        read_u32-Agree m m' p (λ i lo hi. agree i lo (omega arith)) ∙ n,
        read-Agree m m' (p + 4) (length x) (λ i lo hi. agree i (omega arith) (omega arith)) ∙ bs,
      ),
      Stored-Agree m m' (p + slot x) xs e (λ i lo hi. agree i (omega arith) hi) s,
    )

pub Stored-snoc :
    (m : Mem) (p : ℕ) (xs : List (List ℕ)) (e : ℕ) (x : List ℕ)
    → Stored m p xs e
    → RecordAt m e x
    → Stored m p (xs ++ (x ∷ [])) (e + slot x)
unfolding Stored
Stored-snoc m p [] e x s r =
    (subst (λ k. RecordAt m k x) (sym s) r, subst (λ k. k + slot x ≡ e + slot x) (sym s) refl)
Stored-snoc m p (y ∷ ys) e x (q, s) r = (q, Stored-snoc m (p + slot y) ys e x s r)

-- What holds of the numbers of a queue between two operations.
pub record InBounds (size head tail : ℕ) : Type 0 where
  pub size_aligned : size % 4 ≡ 0
  pub size_small : size < 2 ^ 31
  pub head_in : head < size
  pub tail_in : tail < size
  pub head_aligned : head % 4 ≡ 0
  pub tail_aligned : tail % 4 ≡ 0

-- The bounds hold of another head and tail in the queue.
pub bounds-with :
    (size head tail head' tail' : ℕ)
    → InBounds size head tail
    → head' < size
    → head' % 4 ≡ 0
    → tail' < size
    → tail' % 4 ≡ 0
    → InBounds size head' tail'
bounds-with size head tail head' tail' b lt al lt' al' = record {
  size_aligned = b.size_aligned;
  size_small = b.size_small;
  head_in = lt;
  tail_in = lt';
  head_aligned = al;
  tail_aligned = al';
}

module _ (size used head tail : ℕ) (bytes : Mem) (msgs : List (List ℕ)) where
  -- The messages stand from the head to the tail, or to the end of the queue, where the tail is
  -- back at its start.
  pub record Straight : Type 0 where
    pub end : ℕ
    pub stored : Stored bytes head msgs end
    pub at_tail : ((tail ≡ end) × (end < size)) ⊎ ((tail ≡ 0) × (end ≡ size))
    pub used_lem : used + head ≡ end

  -- The messages stand from the head to a mark or the queue's end, and from the start to the tail.
  pub record Wrapped : Type 0 where
    pub first : List (List ℕ)
    pub second : List (List ℕ)
    pub joined : msgs ≡ first ++ second
    pub end : ℕ
    pub stored_first : Stored bytes head first end
    pub marked : (end ≡ size) ⊎ ((end < size) × (read_u32 bytes end ≡ mark))
    pub stored_second : Stored bytes 0 second tail
    pub apart : tail ≤ head
    pub wrapped_lem : used + head ≡ end + tail

  pub record Lies : Type 0 where
    pub bounds : InBounds size head tail
    pub layout : Straight ⊎ Wrapped

-- The queue holds the messages, oldest first.
abbrev pub Holds : Queue → List (List ℕ) → Type 0
Holds q msgs = Lies q.size q.used q.head q.tail q.bytes msgs
