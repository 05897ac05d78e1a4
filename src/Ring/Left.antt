-- ===== src/Ring/Left.antt =====
-- What is left of a queue once its oldest message is popped, by where that message stands.
use kaze.Base.{ℕ, ◌+◌, ◌-◌, ◌≤◌, ◌<◌, ◌≡◌, refl, sym, subst, arith, List, [], ◌++◌, ◌⊎◌, inl, inr}
use kaze.Ring.Memory.{Mem, read_u32}
use kaze.Ring.Queue.{mark}
use kaze.Ring.Layout.{slot, Stored, Stored-le, Stored-nil, InBounds, bounds-with, Lies}
use kaze.Ring.Front.{past_record, past_record-inside, past_record-end}

-- Where the last message ends, and where the tail then is.
abbrev pub AtTail : ℕ → ℕ → ℕ → Type 0
AtTail size tail end = ((tail ≡ end) × (end < size)) ⊎ ((tail ≡ 0) × (end ≡ size))

pub AtTail-le : (size tail end : ℕ) → AtTail size tail end → end ≤ size
AtTail-le size tail end (inl (_, lt)) = omega arith
AtTail-le size tail end (inr (_, e)) = omega arith

-- The straight queue without its oldest message.
module _ (size used head tail end : ℕ) (bytes : Mem) (x : List ℕ) (xs : List (List ℕ)) where
  abbrev pub Left : Type 0
  Left = Lies size (used - slot x) (past_record size head x) tail bytes xs

  pub straight-inside :
      InBounds size head tail
      → Stored bytes (head + slot x) xs end
      → AtTail size tail end
      → used + head ≡ end
      → head + slot x < size
      → Left
  straight-inside b st t u lt =
      let small = b.size_small in
      let al = b.head_aligned in
      let le = Stored-le bytes (head + slot x) xs end st in
      let next = past_record-inside size head x small lt in
      subst (λ h. Lies size (used - slot x) h tail bytes xs) (sym next)
        (record {
          bounds =
              bounds-with size head tail (head + slot x) tail b lt (omega arith) b.tail_in
                b.tail_aligned;
          layout = inl (record { end = end; stored = st; at_tail = t; used_lem = omega arith });
        })

  pub straight-end :
      InBounds size head tail
      → Stored bytes (head + slot x) xs end
      → AtTail size tail end
      → used + head ≡ end
      → head + slot x ≡ size
      → Left
  unfolding Stored
  straight-end b st t u e =
      let pos = b.head_in in
      let le = Stored-le bytes (head + slot x) xs end st in
      let le' = AtTail-le size tail end t in
      let next = past_record-end size head x e in
      let none_left : xs ≡ [] =
        Stored-nil bytes (head + slot x) xs
          (subst (λ k. Stored bytes (head + slot x) xs k) (omega arith) st) in
      subst (λ h. Lies size (used - slot x) h tail bytes xs) (sym next)
        (subst (λ ys. Lies size (used - slot x) 0 tail bytes ys) (sym none_left)
          (record {
            bounds =
                bounds-with size head tail 0 tail b (omega arith) refl b.tail_in b.tail_aligned;
            layout = inl (record {
              end = 0;
              stored = refl;
              at_tail = inl (zero_tail t, omega arith);
              used_lem = omega arith;
            });
          }))
    where
      zero_tail : AtTail size tail end → tail ≡ 0
      zero_tail (inl (h, lt)) =
          let le = Stored-le bytes (head + slot x) xs end st in absurd (omega arith)
      zero_tail (inr (h, _)) = h

-- Where the first part of a wrapped queue ends.
abbrev pub Marked : ℕ → ℕ → Mem → Type 0
Marked size end bytes = (end ≡ size) ⊎ ((end < size) × (read_u32 bytes end ≡ mark))

pub Marked-le : (size end : ℕ) (bytes : Mem) → Marked size end bytes → end ≤ size
Marked-le size end bytes (inl e) = omega arith
Marked-le size end bytes (inr (lt, _)) = omega arith

-- The wrapped queue without its oldest message.
module _ (size used head tail end : ℕ) (bytes : Mem) (x : List ℕ)
    (first second : List (List ℕ)) where
  pub wrapped-inside :
      InBounds size head tail
      → Stored bytes (head + slot x) first end
      → Marked size end bytes
      → Stored bytes 0 second tail
      → tail ≤ head
      → used + head ≡ end + tail
      → head + slot x < size
      → Lies size (used - slot x) (past_record size head x) tail bytes (first ++ second)
  wrapped-inside b st m st' apart u lt =
      let small = b.size_small in
      let al = b.head_aligned in
      let le = Stored-le bytes (head + slot x) first end st in
      let next = past_record-inside size head x small lt in
      subst (λ h. Lies size (used - slot x) h tail bytes (first ++ second)) (sym next)
        (record {
          bounds =
              bounds-with size head tail (head + slot x) tail b lt (omega arith) b.tail_in
                b.tail_aligned;
          layout = inr (record {
            first = first;
            second = second;
            joined = refl;
            end = end;
            stored_first = st;
            marked = m;
            stored_second = st';
            apart = omega arith;
            wrapped_lem = omega arith;
          });
        })

  pub wrapped-end :
      InBounds size head tail
      → Stored bytes (head + slot x) first end
      → Marked size end bytes
      → Stored bytes 0 second tail
      → used + head ≡ end + tail
      → head + slot x ≡ size
      → Lies size (used - slot x) (past_record size head x) tail bytes (first ++ second)
  wrapped-end b st m st' u e =
      let pos = b.head_in in
      let le = Stored-le bytes (head + slot x) first end st in
      let le' = Marked-le size end bytes m in
      let next = past_record-end size head x e in
      let none_left : first ≡ [] =
        Stored-nil bytes (head + slot x) first
          (subst (λ k. Stored bytes (head + slot x) first k) (omega arith) st) in
      subst (λ h. Lies size (used - slot x) h tail bytes (first ++ second)) (sym next)
        (subst (λ ys. Lies size (used - slot x) 0 tail bytes (ys ++ second)) (sym none_left)
          (record {
            bounds =
                bounds-with size head tail 0 tail b (omega arith) refl b.tail_in b.tail_aligned;
            layout = inl (record {
              end = tail;
              stored = st';
              at_tail = inl (refl, b.tail_in);
              used_lem = omega arith;
            });
          }))

  -- The oldest message stands behind a mark.
  pub wrapped-mark :
      InBounds size head tail
      → Stored bytes (0 + slot x) second tail
      → tail ≤ head
      → used ≡ tail
      → Lies size (used - slot x) (past_record size 0 x) tail bytes second
  wrapped-mark b st' apart u =
      let small = b.size_small in
      let pos = b.head_in in
      let le = Stored-le bytes (0 + slot x) second tail st' in
      let next = past_record-inside size 0 x small (omega arith) in
      subst (λ h. Lies size (used - slot x) h tail bytes second) (sym next)
        (record {
          bounds =
              bounds-with size head tail (0 + slot x) tail b (omega arith) (omega arith) b.tail_in
                b.tail_aligned;
          layout = inl (record {
            end = tail;
            stored = st';
            at_tail = inl (refl, b.tail_in);
            used_lem = omega arith;
          });
        })
