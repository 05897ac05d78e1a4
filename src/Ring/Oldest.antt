-- ===== src/Ring/Oldest.antt =====
-- A queue that holds messages has its oldest at its head, or past a mark.
use kaze.Base.{ℕ, ◌+◌, ◌≤◌, ◌≡◌, refl, sym, ap, ◌∙◌, subst, arith, List, [], ◌∷◌, ◌++◌, inl, inr}
use kaze.Ring.Memory.{Mem, read_u32}
use kaze.Ring.Layout.{slot, Stored, Stored-le, InBounds, Lies}
use kaze.Ring.Front.{end-cases, record_at-here, record_at-mark, FrontOrNone}
use kaze.Ring.Left.{
  AtTail, AtTail-le, Marked, Marked-le, straight-inside, straight-end, wrapped-inside, wrapped-end,
  wrapped-mark,
}

module _ (size used head tail : ℕ) (bytes : Mem) (b : InBounds size head tail) where
  straight-front :
      (msgs : List (List ℕ)) (end : ℕ)
      → Stored bytes head msgs end
      → AtTail size tail end
      → used + head ≡ end
      → FrontOrNone size used head tail bytes msgs
  unfolding Stored
  straight-front [] end st t u = inl (omega arith, refl)
  straight-front (x ∷ xs) end ((n, bs), st) t u =
      let small = b.size_small in
      let le = Stored-le bytes (head + slot x) xs end st in
      let le' = AtTail-le size tail end t in
      inr (record {
        oldest = x;
        others = xs;
        split = refl;
        pos = head;
        record_lem = record_at-here bytes head x n (omega arith);
        at_pos = (n, bs);
        inside = omega arith;
        counted = omega arith;
        left = elim (end-cases (head + slot x) size (omega arith)) [
          | inl e ↦ straight-end size used head tail end bytes x xs b st t u e
          | inr lt ↦ straight-inside size used head tail end bytes x xs b st t u lt
        ];
      })

  -- The first part of a wrapped queue is read: its mark is at the head.
  wrapped-second :
      (second : List (List ℕ)) (end : ℕ)
      → head ≡ end
      → Marked size end bytes
      → Stored bytes 0 second tail
      → tail ≤ head
      → used + head ≡ end + tail
      → FrontOrNone size used head tail bytes second
  unfolding Stored
  wrapped-second second end h (inl e) st' apart u = let lt = b.head_in in absurd (omega arith)
  wrapped-second [] end h (inr (lt, m)) st' apart u = inl (omega arith, refl)
  wrapped-second (x ∷ xs) end h (inr (lt, m)) ((n, bs), st') apart u =
      let small = b.size_small in
      let le = Stored-le bytes (0 + slot x) xs tail st' in
      inr (record {
        oldest = x;
        others = xs;
        split = refl;
        pos = 0;
        record_lem = record_at-mark bytes head x (ap (read_u32 bytes) h ∙ m) n;
        at_pos = (n, bs);
        inside = omega arith;
        counted = omega arith;
        left = wrapped-mark size used head tail end bytes x [] xs b st' apart (omega arith);
      })

  wrapped-front :
      (first second : List (List ℕ)) (end : ℕ)
      → Stored bytes head first end
      → Marked size end bytes
      → Stored bytes 0 second tail
      → tail ≤ head
      → used + head ≡ end + tail
      → FrontOrNone size used head tail bytes (first ++ second)
  unfolding Stored
  wrapped-front [] second end st m st' apart u = wrapped-second second end st m st' apart u
  wrapped-front (x ∷ xs) second end ((n, bs), st) m st' apart u =
      let small = b.size_small in
      let le = Stored-le bytes (head + slot x) xs end st in
      let le' = Marked-le size end bytes m in
      inr (record {
        oldest = x;
        others = xs ++ second;
        split = refl;
        pos = head;
        record_lem = record_at-here bytes head x n (omega arith);
        at_pos = (n, bs);
        inside = omega arith;
        counted = omega arith;
        left = elim (end-cases (head + slot x) size (omega arith)) [
          | inl e ↦ wrapped-end size used head tail end bytes x xs second b st m st' u e
          | inr lt ↦ wrapped-inside size used head tail end bytes x xs second b st m st' apart u lt
        ];
      })

-- The oldest message of a queue, or that there is none, and what is used then.
pub front-or-none :
    (size used head tail : ℕ) (bytes : Mem) (msgs : List (List ℕ))
    → Lies size used head tail bytes msgs
    → FrontOrNone size used head tail bytes msgs
front-or-none size used head tail bytes msgs l = elim (l.layout) [
  | inl s ↦
      straight-front size used head tail bytes l.bounds msgs s.end s.stored s.at_tail s.used_lem
  | inr w ↦
      subst (λ ms. FrontOrNone size used head tail bytes ms) (sym w.joined)
        (wrapped-front size used head tail bytes l.bounds w.first w.second w.end w.stored_first
          w.marked w.stored_second w.apart w.wrapped_lem)
]

-- No more is used than there is.
pub used-le :
    (size used head tail : ℕ) (bytes : Mem) (msgs : List (List ℕ))
    → Lies size used head tail bytes msgs
    → used ≤ size
used-le size used head tail bytes msgs l = elim (l.layout) [
  | inl s ↦ let u = s.used_lem in let le = AtTail-le size tail s.end s.at_tail in omega arith
  | inr w ↦
      let u = w.wrapped_lem in
      let a = w.apart in let le = Marked-le size w.end bytes w.marked in omega arith
]
